-- ===== src/WorkerServer/Tests.antt =====
-- The pools of a server by example.
use bits_broker.Prelude.{
  ℕ, Bool, true, false, none, some, [], ◌∷◌, ok, err, Text, text, text_eq, lookup, ◌≡◌, ◌≢◌, refl,
}
use bits_broker.WorkerServer.{
  WorkerServer, routed, validate_pool_name, validate_chars, is_name_char, is_ascii_alphanumeric,
  dispatch_to_pool, register_pool, callback_url, trim_slashes,
}
use bits_broker.WorkerServer.Routes.{register_pool-routes, register_pool-unbound}

abbrev server : WorkerServer ℕ
server = record {
  advertised_addr = some (text "host:1/");
  pools = (text "fdb", 2) ∷ [];
  started = false;
  listens = false;
}

abbrev any_path : Text → Bool
any_path path = true

mars_is_valid : validate_pool_name (text "mars") ≡ ok tt
unfolding validate_pool_name validate_chars is_name_char is_ascii_alphanumeric
mars_is_valid = refl

other_is_valid : validate_pool_name (text "a-1") ≡ ok tt
unfolding validate_pool_name validate_chars is_name_char is_ascii_alphanumeric
other_is_valid = refl

callback_url_at : callback_url (text "mars") server ≡ some (text "http://host:1/mars")
unfolding callback_url trim_slashes
callback_url_at = refl

fdb_is_valid : validate_pool_name (text "fdb") ≡ ok tt
unfolding validate_pool_name validate_chars is_name_char is_ascii_alphanumeric
fdb_is_valid = refl

fdb_is_other : text "fdb" ≢ text "mars"
fdb_is_other h = cc

fdb_is_there : lookup (text "fdb") server.pools ≡ some 2
unfolding lookup
fdb_is_there = refl

register_pool-routes_example :
    let pools = (register_pool (ok tt) (text "mars") 5 server).1.pools in
    (dispatch_to_pool any_path (text "/mars/work") (some (text "timeout_ms=5")) pools
      ≡ routed 5 (text "/work?timeout_ms=5"))
    × (dispatch_to_pool any_path (text "/mars/work") none pools ≡ routed 5 (text "/work"))
    × (dispatch_to_pool any_path (text "/fdb/work") (some (text "timeout_ms=5")) pools
        ≡ routed 2 (text "/work?timeout_ms=5"))
    × (dispatch_to_pool any_path (text "/fdb/work") none pools ≡ routed 2 (text "/work"))
register_pool-routes_example =
    register_pool-routes any_path (ok tt) (text "mars") (text "fdb") 5 2 server (text "work")
      (text "timeout_ms=5") mars_is_valid fdb_is_valid fdb_is_other fdb_is_there

register_pool-unbound_example :
    ((register_pool (err (text "in use")) (text "mars") 5 server).0 ≡ err (text "in use"))
    × ((register_pool
          (ok tt)
          (text "a-1")
          5
          (register_pool (err (text "in use")) (text "mars") 5 server).1).0
        ≡ ok tt)
    × ((register_pool
          (ok tt)
          (text "a-1")
          5
          (register_pool (err (text "in use")) (text "mars") 5 server).1).1.listens
        ≡ false)
register_pool-unbound_example =
    register_pool-unbound (text "mars") (text "a-1") 5 server (text "in use") (ok tt) mars_is_valid
      other_is_valid refl refl
