-- ===== src/Cdc/Service/Registry.antt =====
-- The map of subscribers by table.
use excalibase_watcher.Base.{
  refl, false, ◌≡◌, ◌≢◌, List, [], ◌∷◌, arith, Bytes, bytes_eq_iff, bytes_eq_self,
}
use excalibase_watcher.Cdc.Service.{has_subs, Subs, Subscriber, get_subs, put_subs}

pub get_subs-put_subs_self :
    (table : Bytes) (subs : List Subscriber) (m : Subs)
    → get_subs table (put_subs table subs m) ≡ subs
unfolding get_subs put_subs
get_subs-put_subs_self table subs [] = rw (bytes_eq_self table)
get_subs-put_subs_self table subs ((t, old) ∷ rest) =
    ground (arith, get_subs-put_subs_self table subs rest)

pub get_subs-put_subs_ne :
    (t table : Bytes) (subs : List Subscriber) (m : Subs)
    → t ≢ table
    → get_subs t (put_subs table subs m) ≡ get_subs t m
unfolding get_subs put_subs
get_subs-put_subs_ne t table subs [] h = ground (arith, bytes_eq_iff table t)
get_subs-put_subs_ne t table subs ((k, old) ∷ rest) h =
    ground (arith, bytes_eq_iff k table, bytes_eq_iff k t, get_subs-put_subs_ne t table subs rest h)

pub get_subs_missing : (table : Bytes) (m : Subs) → has_subs table m ≡ false → get_subs table m ≡ []
unfolding has_subs get_subs
get_subs_missing table [] h = refl
get_subs_missing table ((t, subs) ∷ rest) h = ground (arith, get_subs_missing table rest)
