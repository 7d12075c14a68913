-- ===== src/WorkerServer/Routes.antt =====
-- Where the requests of workers go, before and after pools are registered.
use bits_broker.Prelude.{
  Bool, true, false, Bool-cases, Option, none, some, if◌then◌else◌, [], ◌∷◌, ◌++◌, Result, ok, err,
  panic, Text, text_beq_iff, text_eq, HashMap, lookup, insert, lookup-insert, lookup-insert_self,
  ◌≡◌, ◌≢◌, refl, ap, ◌∙◌, inl, inr, arith,
}
use bits_broker.WorkerServer.{
  WorkerServer, routed, invalid_path, validate_pool_name, with_query, call_router,
  dispatch_to_named, dispatch_to_pool, ensure_started, register_pool,
}
use bits_broker.WorkerServer.Names.{extract_pool_and_rest-valid}

module _ {Router : Type 0} where
  ensure_started-pools :
      (binds : Result {0, 0} Text Unit) (w : WorkerServer Router)
      → (ensure_started binds w).1.pools ≡ w.pools
  unfolding ensure_started
  ensure_started-pools binds w = elim (Bool-cases w.started) [
    | inl s ↦ rw (ensure_started, s) refl
    | inr s ↦ rw (ensure_started, s) (unstarted binds)
  ]
    where
      unstarted :
          (binds : Result {0, 0} Text Unit)
          → (elim binds as (λ b. Result {0, 0} Text Unit × WorkerServer Router) [
            | ok u ↦ (ok tt, record w { started = true; listens = true })
            | err e ↦ (err e, record w { started = true })
            | panic ↦ (panic, record w { started = true })
          ]).1.pools
            ≡ w.pools
      unstarted (ok u) = refl
      unstarted (err e) = refl
      unstarted panic = refl

  register_pool-pools :
      (binds : Result {0, 0} Text Unit) (name : Text) (router : Router) (w : WorkerServer Router)
      → validate_pool_name name ≡ ok tt
      → (register_pool binds name router w).1.pools ≡ insert name router w.pools
  unfolding register_pool
  register_pool-pools binds name router w v =
      rw (register_pool, v)
        (ensure_started-pools binds (record w { pools = insert name router w.pools }))

  -- A request for a registered pool.
  reached :
      (parses : Text → Bool) (name rest : Text) (query : Option Text) (pools : HashMap Text Router)
      {router : Router}
      → validate_pool_name name ≡ ok tt
      → lookup name pools ≡ some router
      → dispatch_to_pool parses (b'/' ∷ name ++ b'/' ∷ rest) query pools
        ≡ call_router parses router (with_query (b'/' ∷ rest) query)
  unfolding validate_pool_name dispatch_to_named dispatch_to_pool
  reached parses [] rest query pools v l = cc
  reached parses (c ∷ name) rest query pools v l =
      simp (dispatch_to_pool, extract_pool_and_rest-valid (c ∷ name) rest v, dispatch_to_named, l)

  call_router-query :
      (parses : Text → Bool) (router : Router) (path query : Text)
      → call_router parses router (with_query path (some query)) ≡ (
          if parses (path ++ b'?' ∷ query)
          then routed router (path ++ b'?' ∷ query)
          else invalid_path)
  unfolding call_router with_query
  call_router-query parses router path query = refl

  call_router-no_query :
      (parses : Text → Bool) (router : Router) (path : Text)
      → call_router parses router (with_query path none)
        ≡ (if parses path then routed router path else invalid_path)
  unfolding call_router with_query
  call_router-no_query parses router path = refl

  -- After a pool with a valid name is registered, a request `/pool/rest` for it reaches its router as
  -- `/rest`, and one with a query as `/rest?query`, if that is a valid path, and is refused as an
  -- invalid one if not; and a request for another pool that was registered reaches that one's router
  -- in the same way.
  pub register_pool-routes :
      (parses : Text → Bool) (binds : Result {0, 0} Text Unit) (name other : Text)
      (router old : Router) (w : WorkerServer Router) (rest query : Text)
      → validate_pool_name name ≡ ok tt
      → validate_pool_name other ≡ ok tt
      → other ≢ name
      → lookup other w.pools ≡ some old
      → let pools = (register_pool binds name router w).1.pools in
        let asked = b'/' ∷ rest ++ b'?' ∷ query in
        (dispatch_to_pool parses (b'/' ∷ name ++ b'/' ∷ rest) (some query) pools
          ≡ (if parses asked then routed router asked else invalid_path))
        × (dispatch_to_pool parses (b'/' ∷ name ++ b'/' ∷ rest) none pools
            ≡ (if parses (b'/' ∷ rest) then routed router (b'/' ∷ rest) else invalid_path))
        × (dispatch_to_pool parses (b'/' ∷ other ++ b'/' ∷ rest) (some query) pools
            ≡ (if parses asked then routed old asked else invalid_path))
        × (dispatch_to_pool parses (b'/' ∷ other ++ b'/' ∷ rest) none pools
            ≡ (if parses (b'/' ∷ rest) then routed old (b'/' ∷ rest) else invalid_path))
  register_pool-routes parses binds name other router old w rest query v v' d l =
      let pools = (register_pool binds name router w).1.pools in
      let new : lookup name pools ≡ some router =
        rw (register_pool-pools binds name router w v) (lookup-insert_self name router w.pools) in
      let kept : lookup other pools ≡ some old =
        rw (register_pool-pools binds name router w v, lookup-insert name other router w.pools)
          (ground (arith, text_beq_iff name other, d, l)) in
      (
        reached parses name rest (some query) pools v new ∙ call_router-query parses router _ query,
        reached parses name rest none pools v new ∙ call_router-no_query parses router _,
        reached parses other rest (some query) pools v' kept ∙ call_router-query parses old _ query,
        reached parses other rest none pools v' kept ∙ call_router-no_query parses old _,
      )

  refused :
      (w : WorkerServer Router) {e : Text}
      → w.started ≡ false
      → ensure_started (err e) w ≡ (err e, record w { started = true })
  unfolding ensure_started
  refused w s = simp (ensure_started, s)

  started_before :
      (binds : Result {0, 0} Text Unit) (w : WorkerServer Router)
      → w.started ≡ true
      → ensure_started binds w ≡ (ok tt, w)
  unfolding ensure_started
  started_before binds w s = simp (ensure_started, s)

  registered :
      (binds : Result {0, 0} Text Unit) (name : Text) (router : Router) (w : WorkerServer Router)
      → validate_pool_name name ≡ ok tt
      → register_pool binds name router w
        ≡ ensure_started binds (record w { pools = insert name router w.pools })
  unfolding register_pool
  registered binds name router w v = simp (register_pool, v)

  -- When the address of a server cannot be bound, the registration of a first pool with a valid name
  -- fails, but the registration of any further pool with a valid name succeeds, although no server
  -- listens then and the address is not tried again.
  pub register_pool-unbound :
      (name other : Text) (router : Router) (w : WorkerServer Router) (e : Text)
      (binds : Result {0, 0} Text Unit)
      → validate_pool_name name ≡ ok tt
      → validate_pool_name other ≡ ok tt
      → w.started ≡ false
      → w.listens ≡ false
      → ((register_pool (err e) name router w).0 ≡ err e)
        × ((register_pool binds other router (register_pool (err e) name router w).1).0 ≡ ok tt)
        × ((register_pool binds other router (register_pool (err e) name router w).1).1.listens
            ≡ false)
  register_pool-unbound name other router w e binds v v' s l =
      let with_name : WorkerServer Router = record w { pools = insert name router w.pools } in
      let first : register_pool (err e) name router w
          ≡ (err e, record with_name { started = true }) =
        registered (err e) name router w v ∙ refused with_name s in
      let w' : WorkerServer Router = record with_name { started = true } in
      let second : register_pool binds other router w'
          ≡ (ok tt, record w' { pools = insert other router w'.pools }) =
        registered binds other router w' v'
        ∙ started_before binds (record w' { pools = insert other router w'.pools }) refl in
      (
        ap (λ p. p.0) first,
        ap (λ p. (register_pool binds other router p.1).0) first ∙ ap (λ p. p.0) second,
        ap (λ p. (register_pool binds other router p.1).1.listens) first
            ∙ ap (λ p. p.1.listens) second
            ∙ l,
      )
