-- ===== src/DistributedLock/Exclusion.antt =====
-- Who holds a lock of src/10_distributed/03_distributed_lock, until when, and how it is freed.
use grin_with_golang.DistributedLock.{
  granted, held_by, released, not_found, other_holder, acquire, release, tick, LockEntry, apply,
  apply_all, Op, DistributedLock, lock, unlock, expire, grant, add64, sym,
}
use grin_with_golang.Prelude.{
  List, [], arith, inl, inr, none, some, ℕ, ◌≤◌, ◌<◌, ◌≡◌, ◌≢◌, ◌⊎◌, ◌∷◌, Option-cases, sym,
}

module _ {K H : Type 0} (dec : Discrete K) (dec_h : Discrete H) where
  -- An operation that neither is the holder's release of the lock nor comes after its expiry. A tick
  -- at the very instant of expiry still leaves the lock alone.
  abbrev pub IsForeign : LockEntry K H → Op K H → Type 0
  IsForeign e (acquire key holder ttl now later) = now < e.expires_at
  IsForeign e (release key holder) = (key ≡ e.key) → holder ≢ e.holder
  IsForeign e (tick now) = now ≤ e.expires_at

  abbrev pub AllForeign : LockEntry K H → List (Op K H) → Type 0
  AllForeign e [] = Unit
  AllForeign e (op ∷ ops) = IsForeign e op × AllForeign e ops

  apply-kept :
      (dl : DistributedLock K H) (e : LockEntry K H) (op : Op K H)
      → dl.locks e.key ≡ some e
      → IsForeign e op
      → (apply dec dec_h dl op).locks e.key ≡ some e
  unfolding apply
  apply-kept dl e (acquire key holder ttl now later) at f = ground arith
  apply-kept dl e (release key holder) at f = ground arith
  apply-kept dl e (tick now) at f = ground arith

  -- Mutual exclusion: whatever other clients and the expiry loop do before a lock expires, it stays
  -- its holder's, and each attempt to take it is refused and named the holder.
  pub apply_all-kept :
      (ops : List (Op K H)) (dl : DistributedLock K H) (e : LockEntry K H) (holder : H)
      (ttl now later : ℕ)
      → dl.locks e.key ≡ some e
      → AllForeign e ops
      → now < e.expires_at
      → let dl' = apply_all dec dec_h dl ops in
        (dl'.locks e.key ≡ some e)
        × (lock dec dec_h dl' e.key holder ttl now later ≡ (dl', held_by e.holder))
  unfolding apply_all lock
  apply_all-kept [] dl e holder ttl now later at f h = ground arith
  apply_all-kept (op ∷ ops) dl e holder ttl now later at f h =
      apply_all-kept ops (apply dec dec_h dl op) e holder ttl now later (apply-kept dl e op at f.0)
        f.1 h

  -- `Unlock` takes a lock out of the table only if the call names its holder. Then the locks of all
  -- other keys and the token counter stay as they are, and the lock can be taken at any time; otherwise
  -- the call changes nothing and says why.
  pub unlock_cases :
      (dl : DistributedLock K H) (key : K) (holder other : H) (ttl now later : ℕ)
      → let (dl', r) = unlock dec dec_h dl key holder in
        ((e : LockEntry K H) × (dl.locks key ≡ some e)
          × (e.holder ≡ holder)
          × (r ≡ released)
          × (dl'.locks key ≡ none)
          × ((k : K) → (k ≡ key) ⊎ (dl'.locks k ≡ dl.locks k))
          × (dl'.next_tok ≡ dl.next_tok)
          × ((lock dec dec_h dl' key other ttl now later).1 ≡ granted (add64 dl.next_tok 1)))
        ⊎ ((dl' ≡ dl)
            × (((r ≡ not_found) × (dl.locks key ≡ none))
                ⊎ ((e : LockEntry K H) × (dl.locks key ≡ some e)
                    × (e.holder ≢ holder)
                    × (r ≡ other_holder e.holder))))
  unfolding unlock lock grant
  unlock_cases dl key holder other ttl now later = elim (Option-cases (dl.locks key)) [
    | inl free ↦ inr (ground arith, inl (ground arith, free))
    | inr (e, at) ↦ elim (dec_h e.holder holder) [
      | yes own ↦ inl (
        e,
        at,
        own,
        ground arith,
        ground arith,
        (λ k. elim (dec key k) [ yes same ↦ inl (sym same) | no apart ↦ inr (ground arith) ]),
        ground arith,
        ground arith,
      )
      | no foreign ↦ inr (ground arith, inr (e, at, foreign, ground arith))
    ]
  ]

  -- No crash blocks a lock for ever: once its expiry has come, the next attempt gets it, with or
  -- without a tick of the background loop in between.
  lock_after_expiry :
      (dl : DistributedLock K H) (key : K) (e : LockEntry K H) (holder : H) (ttl now later : ℕ)
      → dl.locks key ≡ some e
      → e.expires_at ≤ now
      → ((lock dec dec_h dl key holder ttl now later).1 ≡ granted (add64 dl.next_tok 1))
        × ((tick_at : ℕ)
            → (lock dec dec_h (expire dl tick_at) key holder ttl now later).1
              ≡ granted (add64 dl.next_tok 1))
  unfolding lock expire grant
  lock_after_expiry dl key e holder ttl now later at h = (ground arith, λ tick_at. ground arith)
