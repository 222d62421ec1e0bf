-- ===== src/Limits/Lock.antt =====
-- `DistributedLock` with the local backend. The instance's name and the readings of the clock are
-- arguments; times are whole numbers.
use flavor_rag.Prelude.{
  ℕ, String, List, [], ◌∷◌, Bool, true, false, Option, none, some, if◌then◌else◌, ◌==◌, eq_iff,
  eq_refl, ltb, ◌+◌, ◌<◌, ◌≡◌, All, Bool-cases, inl, inr, refl, lt→ltb, ◌⊎◌, ap,
}
use flavor_rag.Prelude.Dict.{Dict, get, set, remove, get-set}

pub record LockEntry : Type 0 where
  pub owner : String
  pub expires_at : ℕ

-- Whether an entry is there and has not expired.
unfoldable pub is_held : Option LockEntry → ℕ → Bool
is_held none now = false
is_held (some e) now = ltb now e.expires_at

module _ (instance_id : String) where
  unfoldable pub acquire : Dict LockEntry → String → ℕ → ℕ → Dict LockEntry × Bool
  unfolding is_held get set
  acquire locks key now ttl_sec =
      if is_held (get locks key) now
      then (locks, false)
      else (set locks key (record { owner = instance_id; expires_at = now + ttl_sec }), true)

  unfoldable pub release : Dict LockEntry → String → Dict LockEntry
  unfolding remove
  release locks key = remove locks key

  unfoldable pub renew : Dict LockEntry → String → ℕ → ℕ → Dict LockEntry × Bool
  unfolding get set
  renew locks key now ttl_sec = elim (get locks key) [
    | none ↦ (locks, false)
    | some e ↦
        if e.owner == instance_id
        then (set locks key (record e { expires_at = now + ttl_sec }), true)
        else (locks, false)
  ]

  -- One after the other: attempts to acquire the key at a time for so many seconds.
  unfoldable pub acquire_all : List (String × ℕ × ℕ) → Dict LockEntry → Dict LockEntry
  unfolding acquire
  acquire_all [] locks = locks
  acquire_all ((key, now, ttl_sec) ∷ attempts) locks =
      acquire_all attempts (acquire locks key now ttl_sec).0

  held_refuses :
      (locks : Dict LockEntry) (key : String) (e : LockEntry) (now ttl_sec : ℕ)
      → get locks key ≡ some e
      → now < e.expires_at
      → acquire locks key now ttl_sec ≡ (locks, false)
  unfolding acquire is_held
  held_refuses locks key e now ttl_sec h k = rw (h, lt→ltb now e.expires_at k) refl

  acquired_entry :
      (locks : Dict LockEntry) (key : String) (now ttl_sec : ℕ)
      → (acquire locks key now ttl_sec).1 ≡ true
      → get (acquire locks key now ttl_sec).0 key
        ≡ some (record { owner = instance_id; expires_at = now + ttl_sec })
  unfolding acquire
  acquired_entry locks key now ttl_sec h = elim (Bool-cases (is_held (get locks key) now)) [
    | inl e ↦ cc (rw (e, acquire) at h)
    | inr e ↦
        let entry : LockEntry = record { owner = instance_id; expires_at = now + ttl_sec } in
        rw (e, acquire, get-set locks key key entry, eq_refl key) refl
  ]

  kept_entry :
      (locks : Dict LockEntry) (key other : String) (e : LockEntry) (now ttl_sec : ℕ)
      → get locks key ≡ some e
      → now < e.expires_at
      → get (acquire locks other now ttl_sec).0 key ≡ some e
  unfolding acquire get
  kept_entry locks key other e now ttl_sec h k = elim (Bool-cases (other == key)) [
    | inl same ↦
        let q : get locks other ≡ some e = rw ((eq_iff other key).0 same) h in
        rw (held_refuses locks other e now ttl_sec q k) h
    | inr apart ↦ elim_held (Bool-cases (is_held (get locks other) now)) apart
  ]
    where
      elim_held :
          ((is_held (get locks other) now ≡ true) ⊎ (is_held (get locks other) now ≡ false))
          → (other == key) ≡ false
          → get (acquire locks other now ttl_sec).0 key ≡ some e
      elim_held (inl held) apart = rw (held, acquire) h
      elim_held (inr free) apart =
          let entry : LockEntry = record { owner = instance_id; expires_at = now + ttl_sec } in
          rw (free, acquire, get-set locks other key entry, apart) h

  -- The entry outlasts all attempts that come before it expires.
  kept_entries :
      (attempts : List (String × ℕ × ℕ)) (locks : Dict LockEntry) (key : String) (e : LockEntry)
      → get locks key ≡ some e
      → All (λ (k, now, ttl). now < e.expires_at) attempts
      → get (acquire_all attempts locks) key ≡ some e
  unfolding acquire_all
  kept_entries [] locks key e h a = h
  kept_entries ((k, now, ttl_sec) ∷ attempts) locks key e h a =
      kept_entries attempts (acquire locks k now ttl_sec).0 key e
        (kept_entry locks key k e now ttl_sec h a.0) a.1

  -- A lock that has been acquired for some seconds, and is not released, is refused to every attempt that
  -- comes before these seconds are over, whatever other attempts come in between.
  pub acquire-exclusive :
      (locks : Dict LockEntry) (key : String) (now ttl_sec : ℕ) (attempts : List (String × ℕ × ℕ))
      (later ttl : ℕ)
      → (acquire locks key now ttl_sec).1 ≡ true
      → All (λ (k, t, s). t < now + ttl_sec) attempts
      → later < now + ttl_sec
      → (acquire (acquire_all attempts (acquire locks key now ttl_sec).0) key later ttl).1 ≡ false
  acquire-exclusive locks key now ttl_sec attempts later ttl h a k =
      let entry : LockEntry = record { owner = instance_id; expires_at = now + ttl_sec } in
      let at =
        kept_entries attempts (acquire locks key now ttl_sec).0 key entry
          (acquired_entry locks key now ttl_sec h) a in
      ap (λ r. r.1)
        (held_refuses (acquire_all attempts (acquire locks key now ttl_sec).0) key entry later ttl
          at k)
