-- ===== src/Rta/SupernodeList/Entries.antt =====
-- The list as a dictionary of supernodes by public id.
use graft_ng.Shared.{
  ◌≡◌, String, true, false, none, some, arith, if◌then◌else◌, ◌==◌, string_eq, lookup-emplace,
  lookup-erase,
}
use graft_ng.Rta.Crypto.{Crypto}
use graft_ng.Rta.Supernode.{Supernode, id_key_as_string}
use graft_ng.Rta.SupernodeList.{Rng, FullSupernodeList, add, remove, get, exists, add_impl}

-- `add` succeeds exactly when no supernode has the id, and then makes it findable; `remove`
-- succeeds exactly when one has, and then nothing is found under the id. Every other id leads to
-- what it led to before, and a call that fails changes nothing that can be found.
pub add-remove_effects :
    (c : Crypto) (g : Rng) (item : Supernode c) (id j : String) (l : FullSupernodeList c g)
    → ((add c g item l).1 ≡ (if exists c g (id_key_as_string c item) l then false else true))
      × (get c g j (add c g item l).0 ≡ (
          if exists c g (id_key_as_string c item) l
          then get c g j l
          else if id_key_as_string c item == j
          then some item
          else get c g j l))
      × ((remove c g id l).1 ≡ exists c g id l)
      × (get c g j (remove c g id l).0 ≡ (if id == j then none else get c g j l))
unfolding add remove get exists add_impl
add-remove_effects c g item id j l =
    let k = c.key_to_hex item.id_key in
    ground (arith, lookup-emplace k j item l.list, lookup-erase id j l.list)
