-- ===== src/Blacklist/Rates.antt =====
-- How many requests an address may make before it triggers.
use graft_ng.Shared.{
  ℕ, suc, ◌+◌, ◌*◌, ◌≤◌, ◌<◌, ◌≡◌, ◌≢◌, refl, ◌⊎◌, inl, inr, Bool, true, false, Option, none, some,
  List, [], ◌∷◌, arith, if◌then◌else◌, ltb, nat_eqb, nat_eq, lookup, assign, lookup-assign,
  lookup-erase, All, length, Bool-cases, ◌∙◌,
}
use graft_ng.Blacklist.{
  one_sec, Window, new_window, IpMap, wnd_size, count_request, emplace_in_order, neighbor,
  remove_neighbor, remove_it_and_neighbor, inc,
}

lookup-emplace_in_order :
    (a : ℕ) (v : Window) (m : List (ℕ × Window))
    → lookup a m ≡ none
    → lookup a (emplace_in_order a v m) ≡ some v
unfolding emplace_in_order
lookup-emplace_in_order a v [] h = ground arith
lookup-emplace_in_order a v ((j, w) ∷ m) h = ground (arith, lookup-emplace_in_order a v m)

-- The neighbor is another address, or the only entry.
neighbor_cases :
    (a : ℕ) (m whole : List (ℕ × Window)) (e : ℕ × Window)
    → neighbor a m whole ≡ some e
    → (e.0 ≢ a) ⊎ (lookup a whole ≡ some e.1)
unfolding neighbor
neighbor_cases a [] [] e h = ground arith
neighbor_cases a [] ((j, w) ∷ whole) e h = ground arith
neighbor_cases a ((j, w) ∷ m) whole e h = elim (Bool-cases (ltb a j)) [
  | inl l ↦ ground arith
  | inr l ↦ neighbor_cases a m whole e (ground arith)
]

-- A window that is not old survives.
lookup-remove_neighbor :
    (size a now : ℕ) (o : Option (ℕ × Window)) (m : List (ℕ × Window)) (w : Window)
    → o ≡ neighbor a m m
    → lookup a m ≡ some w
    → now < w.tp_start + size + size
    → lookup a (remove_neighbor size now o m) ≡ some w
unfolding remove_neighbor
lookup-remove_neighbor size a now none m w h k l = k
lookup-remove_neighbor size a now (some e) m w h k l =
    elim (neighbor_cases a m m e (ground arith)) [
      | inl d ↦ ground (arith, lookup-erase e.0 a m)
      | inr s ↦ ground arith
    ]

missing-remove_neighbor :
    (size a now : ℕ) (o : Option (ℕ × Window)) (m : List (ℕ × Window))
    → lookup a m ≡ none
    → lookup a (remove_neighbor size now o m) ≡ none
unfolding remove_neighbor
missing-remove_neighbor size a now none m k = k
missing-remove_neighbor size a now (some e) m k = ground (arith, lookup-erase e.0 a m)

-- A request within the window, or at most a second after it, is counted.
count_request_within :
    (p : IpMap) (now : ℕ) (w : Window)
    → now ≤ w.tp_start + wnd_size p + one_sec
    → 2 ≤ p.wnd_size_sec
    → count_request p now w ≡ (
      record { tp_start = w.tp_start; count = w.count + 1 },
      ltb (p.wnd_size_sec * p.requests_per_sec) (w.count + 1),
    )
unfolding count_request
count_request_within p now w h k = ground arith

-- What the map holds for the address after a request within its window.
pub record IsCounted (a : ℕ) (w : Window) (p : IpMap) (res : Bool × IpMap) : Type 0 where
  pub answer : res.0 ≡ ltb (p.wnd_size_sec * p.requests_per_sec) (w.count + 1)
  pub kept :
      (res.0 ≡ true)
      ⊎ (lookup a res.1.ipwnd ≡ some (record { tp_start = w.tp_start; count = w.count + 1 }))
  pub size : res.1.wnd_size_sec ≡ p.wnd_size_sec
  pub rate : res.1.requests_per_sec ≡ p.requests_per_sec

inc_found :
    (a now : ℕ) (w : Window) (p : IpMap)
    → lookup a p.ipwnd ≡ some w
    → now ≤ w.tp_start + wnd_size p + one_sec
    → 2 ≤ p.wnd_size_sec
    → let t = ltb (p.wnd_size_sec * p.requests_per_sec) (w.count + 1) in
      let w' : Window = record { tp_start = w.tp_start; count = w.count + 1 } in
      inc a now p
      ≡ (t, record p { ipwnd = remove_it_and_neighbor (wnd_size p) a t now (assign a w' p.ipwnd) })
unfolding inc
inc_found a now w p f h k = rw (f, inc, count_request_within p now w h k) refl

inc_missing :
    (a now : ℕ) (p : IpMap)
    → lookup a p.ipwnd ≡ none
    → inc a now p ≡ (
      false,
      record p {
        ipwnd =
            remove_it_and_neighbor
              (wnd_size p)
              a
              false
              now
              (emplace_in_order a (new_window now) p.ipwnd);
      },
    )
unfolding inc
inc_missing a now p f = rw (f, inc) refl

lookup-remove_it_and_neighbor :
    (size a now : ℕ) (m : List (ℕ × Window)) (w : Window)
    → lookup a m ≡ some w
    → now < w.tp_start + size + size
    → lookup a (remove_it_and_neighbor size a false now m) ≡ some w
unfolding remove_it_and_neighbor
lookup-remove_it_and_neighbor size a now m w h l =
    lookup-remove_neighbor size a now (neighbor a m m) m w refl h l

inc-IsCounted :
    (a now : ℕ) (w : Window) (p : IpMap)
    → lookup a p.ipwnd ≡ some w
    → now ≤ w.tp_start + wnd_size p + one_sec
    → 2 ≤ p.wnd_size_sec
    → IsCounted a w p (inc a now p)
inc-IsCounted a now w p f h k =
    let w' : Window = record { tp_start = w.tp_start; count = w.count + 1 } in
    let stays : lookup a (assign a w' p.ipwnd) ≡ some w' =
      ground (arith, lookup-assign a a w' p.ipwnd) in
    let young : now < w'.tp_start + wnd_size p + wnd_size p = omega (arith, h, k) in
    rw (inc_found a now w p f h k) (record {
      answer = refl;
      kept = elim (Bool-cases (ltb (p.wnd_size_sec * p.requests_per_sec) (w.count + 1))) [
        | inl t ↦ inl t
        | inr t ↦ inr (
            rw t (
              lookup-remove_it_and_neighbor (wnd_size p) a now (assign a w' p.ipwnd) w' stays
                young))
      ];
      size = refl;
      rate = refl;
    })

-- The requests of an address at the given times: whether one of them triggers, and the map.
abbrev pub burst : ℕ → List ℕ → IpMap → Bool × IpMap
burst a [] p = (false, p)
burst a (t ∷ ts) p =
    let res = inc a t p in let rest = burst a ts res.1 in (if res.0 then true else rest.0, rest.1)

-- After some requests the address has its window, with the requests counted.
record Holds (a start n : ℕ) (p : IpMap) (res : Bool × IpMap) : Type 0 where
  quiet : res.0 ≡ false
  held : lookup a res.1.ipwnd ≡ some (record { tp_start = start; count = n })
  size : res.1.wnd_size_sec ≡ p.wnd_size_sec
  rate : res.1.requests_per_sec ≡ p.requests_per_sec

burst-Holds :
    (a start n : ℕ) (ts : List ℕ) (p : IpMap)
    → lookup a p.ipwnd ≡ some (record { tp_start = start; count = n })
    → All (λ t. t ≤ start + p.wnd_size_sec * one_sec + one_sec) ts
    → 2 ≤ p.wnd_size_sec
    → n + length ts ≤ p.wnd_size_sec * p.requests_per_sec
    → Holds a start (n + length ts) p (burst a ts p)
burst-Holds a start n [] p f h k l = record {
  quiet = refl;
  held = ground arith;
  size = refl;
  rate = refl;
}
burst-Holds a start n (t ∷ ts) p f h k l =
    let first = inc-IsCounted a t (record { tp_start = start; count = n }) p f h.0 k in
    let p' = (inc a t p).1 in
    let no : (inc a t p).0 ≡ false = ground (arith, first.answer) in
    let holds : lookup a p'.ipwnd ≡ some (record { tp_start = start; count = n + 1 }) =
      elim first.kept [ inl hit ↦ ground arith | inr e ↦ e ] in
    let rest =
      burst-Holds a start (n + 1) ts p' holds (rw first.size h.1) (rw first.size k)
        (rw (first.size, first.rate) (omega (arith, l))) in
    record {
      quiet = rw no rest.quiet;
      held = ground (arith, rest.held);
      size = rest.size ∙ first.size;
      rate = rest.rate ∙ first.rate;
    }

-- An address that has no window sends requests, all of them within the window's length and one
-- second of the first; the window lasts two seconds at least. As long as they are no more than
-- the rate times the length of the window, none of them triggers, whatever other addresses are
-- known; and the next one, within the same time, triggers exactly when they have reached that
-- number.
pub burst_limit :
    (a start t : ℕ) (ts : List ℕ) (p : IpMap)
    → lookup a p.ipwnd ≡ none
    → All (λ t. t ≤ start + wnd_size p + one_sec) ts
    → t ≤ start + wnd_size p + one_sec
    → 2 ≤ p.wnd_size_sec
    → suc (length ts) ≤ p.wnd_size_sec * p.requests_per_sec
    → let sent = burst a (start ∷ ts) p in
      (sent.0 ≡ false)
      × ((inc a t sent.1).0 ≡ nat_eqb (suc (length ts)) (p.wnd_size_sec * p.requests_per_sec))
burst_limit a start t ts p f h hl k l =
    let p' = (inc a start p).1 in
    let res = burst a ts p' in
    let new : lookup a p'.ipwnd ≡ some (new_window start) = rw (inc_missing a start p f) (
      lookup-remove_it_and_neighbor (wnd_size p) a start
        (emplace_in_order a (new_window start) p.ipwnd) (new_window start)
        (lookup-emplace_in_order a (new_window start) p.ipwnd f) (omega (arith, k))) in
    let size : p'.wnd_size_sec ≡ p.wnd_size_sec = rw (inc_missing a start p f) refl in
    let rate : p'.requests_per_sec ≡ p.requests_per_sec = rw (inc_missing a start p f) refl in
    let no : (inc a start p).0 ≡ false = rw (inc_missing a start p f) refl in
    let rest =
      burst-Holds a start 1 ts p' new (rw size h) (rw size k)
        (rw (size, rate) (omega (arith, l))) in
    let last =
      inc-IsCounted a t (record { tp_start = start; count = 1 + length ts }) res.1 rest.held
        (rw (rest.size ∙ size) hl) (rw (rest.size ∙ size) k) in
    (rw no rest.quiet, ground (arith, last.answer, rest.size, rest.rate, size, rate))
