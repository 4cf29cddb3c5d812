-- ===== src/Affinity/Router/Overflow.antt =====
-- prefix/affinity.go and affinityPick of server/routing.go: the sticky overflow entries.
use switch.Prelude.Dict.{lookup, remove}
use switch.Prelude.{
  ℕ, String, ◌≡◌, refl, ◌≢◌, inl, inr, Bool, Option, none, some, List, [], ◌∷◌, ◌==◌, Bool-cases,
  length, arith,
}
use switch.Affinity.Ring.{AffinityNode}
use switch.Affinity.Router.{
  AffinityRouter, dec, sticky, conclude, set_ring, decide_by_ring, decide, affinity_pick,
  overflowed, decide_with, Reason, inc, note_overflow, new_affinity_router, primary, fallback,
}

-- What the server does with its router.
pub data Call : Type 0 where
  picks : ℕ → String → Option (String → Bool) → Call
  finishes : String → Call
  rebuilds : List AffinityNode → Call

module _ (hash_key : String → ℕ) (vnode_hash : String → ℕ → ℕ) where
  unfoldable pub serve : Call → AffinityRouter → AffinityRouter
  serve (picks now key healthy) a = (affinity_pick hash_key now key healthy a).0
  serve (finishes name) a = dec name a
  serve (rebuilds nodes) a = set_ring hash_key vnode_hash nodes a

  unfoldable pub serve_all : AffinityRouter → List Call → AffinityRouter
  serve_all a [] = a
  serve_all a (call ∷ calls) = serve_all (serve call a) calls

  conclude-overflow :
      (chosen : Option String) (a : AffinityRouter)
      → ((conclude chosen a).0.overflow ≡ a.overflow) × ((conclude chosen a).1.1 ≢ overflowed)
  unfolding conclude
  conclude-overflow none a = (refl, λ e. cc)
  conclude-overflow (some name) a = (refl, λ e. cc)

  decide_by_ring-overflow :
      (key : String) (healthy : Option (String → Bool)) (a : AffinityRouter)
      → let (b, (p, reason)) = decide_by_ring hash_key key healthy a in
        (b.overflow ≡ a.overflow) × (reason ≢ overflowed)
  unfolding decide_by_ring
  decide_by_ring-overflow key healthy a = elim (Bool-cases (length a.ring.vnodes == 0)) [
    | inl empty ↦ rw empty (conclude-overflow none a)
    | inr some_vnode ↦ rw some_vnode (conclude-overflow _ a)
  ]

  -- Without an entry Decide makes none, and does not end with "overflow".
  decide-overflow :
      (now : ℕ) (key : String) (healthy : Option (String → Bool)) (a : AffinityRouter)
      → a.overflow ≡ []
      → let (b, (p, reason)) = decide hash_key now key healthy a in
        (b.overflow ≡ []) × (reason ≢ overflowed)
  unfolding decide decide_with sticky lookup remove
  decide-overflow now key healthy a e =
      rw (e, decide) (decide_by_ring-overflow key healthy (record a { overflow = [] }))

  note_overflow-other :
      (now : ℕ) (key p : String) (reason : Reason) (a : AffinityRouter)
      → reason ≢ overflowed
      → note_overflow now key p reason a ≡ a
  unfolding note_overflow
  note_overflow-other now key p overflowed a other = absurd (other refl)
  note_overflow-other now key p primary a other = refl
  note_overflow-other now key p fallback a other = refl

  affinity_pick-overflow :
      (now : ℕ) (key : String) (healthy : Option (String → Bool)) (a : AffinityRouter)
      → a.overflow ≡ []
      → ((affinity_pick hash_key now key healthy a).0.overflow ≡ [])
        × ((affinity_pick hash_key now key healthy a).1.1 ≢ overflowed)
  unfolding affinity_pick inc
  affinity_pick-overflow now key healthy a e =
      let (kept, other) = decide-overflow now key healthy a e in
      let (b, (p, reason)) = decide hash_key now key healthy a in
      (rw (note_overflow-other now key p reason b other) (ground (arith, kept)), other)

  serve-overflow :
      (call : Call) (a : AffinityRouter) → a.overflow ≡ [] → (serve call a).overflow ≡ []
  unfolding serve dec set_ring
  serve-overflow (picks now key healthy) a e = (affinity_pick-overflow now key healthy a e).0
  serve-overflow (finishes name) a e = ground arith
  serve-overflow (rebuilds nodes) a e = refl

  serve_all-overflow :
      (calls : List Call) (a : AffinityRouter) → a.overflow ≡ [] → (serve_all a calls).overflow ≡ []
  unfolding serve_all
  serve_all-overflow [] a e = e
  serve_all-overflow (call ∷ calls) a e =
      serve_all-overflow calls (serve call a) (serve-overflow call a e)

  -- A router that the server uses as affinityPick does never has a sticky overflow entry, and never
  -- ends a pick with "overflow": the entry is written only after a pick that has found one.
  pub never_overflows :
      (nodes : List AffinityNode) (num den ttl now : ℕ) (key : String)
      (healthy : Option (String → Bool)) (calls : List Call)
      → let a = serve_all (new_affinity_router hash_key vnode_hash nodes num den ttl) calls in
        (a.overflow ≡ []) × ((affinity_pick hash_key now key healthy a).1.1 ≢ overflowed)
  never_overflows nodes num den ttl now key healthy calls =
      let start : AffinityRouter = new_affinity_router hash_key vnode_hash nodes num den ttl in
      let e = serve_all-overflow calls start (unfold new_affinity_router in refl) in
      (e, (affinity_pick-overflow now key healthy (serve_all start calls) e).1)
