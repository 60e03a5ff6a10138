-- ===== src/Router/Kept.antt =====
-- Every operation keeps the subscription table valid.
use ch_relay.Prelude.{[], ◌∷◌, arith, nat_eq}
use ch_relay.Prelude.Map.{
  Map, HasUniqueKeys, AllValues, Lacks, remove-HasUniqueKeys, remove-AllValues,
}
use ch_relay.Bytes.{Bytes, bytes_eq}
use ch_relay.Router.{
  ClientId, Router, SharedGroup, leave_groups, remove_client, pick_member, route_groups, route,
}
use ch_relay.Router.Granted.{leave_groups-Lacks}
use ch_relay.Router.Validity.{IsValid, IsSubList, IsGroup}
use ch_relay.Router.KeptBySubscribing.{leave_group-distinct}

leave_groups-HasUniqueKeys :
    (c : ClientId) (m : Map Bytes SharedGroup) → HasUniqueKeys m → HasUniqueKeys (leave_groups c m)
unfolding leave_groups
leave_groups-HasUniqueKeys c [] u = tt
leave_groups-HasUniqueKeys c ((name, g) ∷ m) u =
    ground (arith, leave_groups-HasUniqueKeys c m u.1, leave_groups-Lacks c name m u.0)

leave_groups-IsGroup :
    (c : ClientId) (m : Map Bytes SharedGroup)
    → AllValues IsGroup m
    → AllValues IsGroup (leave_groups c m)
unfolding leave_groups
leave_groups-IsGroup c [] h = tt
leave_groups-IsGroup c ((name, g) ∷ m) h =
    ground (arith, leave_groups-IsGroup c m h.1, leave_group-distinct c g.members h.0.1)

pub remove_client-IsValid : {r : Router} (c : ClientId) → IsValid r → IsValid (remove_client r c)
unfolding remove_client
remove_client-IsValid {r} c v = record {
  clients = remove-HasUniqueKeys c r.normal v.clients;
  groups = leave_groups-HasUniqueKeys c r.shared v.groups;
  sub_lists = remove-AllValues IsSubList c r.normal v.sub_lists;
  members = leave_groups-IsGroup c r.shared v.members;
}

route_groups-Lacks :
    (topic name : Bytes) (m : Map Bytes SharedGroup)
    → Lacks name m
    → Lacks name (route_groups topic m).0
unfolding route_groups
route_groups-Lacks topic name [] l = tt
route_groups-Lacks topic name ((j, g) ∷ m) l = (l.0, route_groups-Lacks topic name m l.1)

route_groups-HasUniqueKeys :
    (topic : Bytes) (m : Map Bytes SharedGroup)
    → HasUniqueKeys m
    → HasUniqueKeys (route_groups topic m).0
unfolding route_groups
route_groups-HasUniqueKeys topic [] u = tt
route_groups-HasUniqueKeys topic ((j, g) ∷ m) u =
    (route_groups-Lacks topic j m u.0, route_groups-HasUniqueKeys topic m u.1)

pick_member-IsGroup :
    (topic : Bytes) (g : SharedGroup) → IsGroup g → IsGroup (pick_member topic g).0
unfolding pick_member
pick_member-IsGroup topic g i = ground arith

route_groups-IsGroup :
    (topic : Bytes) (m : Map Bytes SharedGroup)
    → AllValues IsGroup m
    → AllValues IsGroup (route_groups topic m).0
unfolding route_groups
route_groups-IsGroup topic [] h = tt
route_groups-IsGroup topic ((j, g) ∷ m) h =
    (pick_member-IsGroup topic g h.0, route_groups-IsGroup topic m h.1)

pub route-IsValid : {r : Router} (topic : Bytes) → IsValid r → IsValid (route r topic).0
unfolding route
route-IsValid {r} topic v = record {
  clients = v.clients;
  groups = route_groups-HasUniqueKeys topic r.shared v.groups;
  sub_lists = v.sub_lists;
  members = route_groups-IsGroup topic r.shared v.members;
}
