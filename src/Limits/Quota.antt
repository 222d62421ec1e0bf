-- ===== src/Limits/Quota.antt =====
-- `TokenQuota` with the memory backend. The date of today, as the code prints it, is an argument.
use flavor_rag.Prelude.{
  ℕ, String, List, [], ◌∷◌, Bool, true, Option, none, some, if◌then◌else◌, ◌==◌, eq_iff, ltb, ◌+◌,
  ◌-◌, ◌<◌, ◌≡◌, ◌↔◌, arith, refl, ap, Bool-cases, inl, inr,
}
use Prim.Native.String.{◌++◌ as join}
use flavor_rag.Prelude.Dict.{Dict, get, set, get-set}

pub record QuotaStatus : Type 0 where
  pub allowed : Bool
  pub remaining : ℕ
  pub limit : ℕ

unfoldable pub key_of : String → String → String
key_of tenant_id today = join tenant_id (join ":" today)

abbrev pub or_0 : Option ℕ → ℕ
or_0 none = 0
or_0 (some n) = n

-- `_memory_check`; `max(0, limit - used)` is the subtraction that stops at 0.
unfoldable pub check : ℕ → Dict ℕ → String → String → QuotaStatus
unfolding get key_of
check daily_default usage tenant_id today =
    let remaining = daily_default - or_0 (get usage (key_of tenant_id today)) in
    record { allowed = ltb 0 remaining; remaining = remaining; limit = daily_default }

-- `record` and `_memory_record`
unfoldable pub record_usage : Dict ℕ → String → String → ℕ → ℕ → Dict ℕ
unfolding get set key_of
record_usage usage tenant_id today prompt_tokens completion_tokens =
    let key = key_of tenant_id today in
    set usage key (or_0 (get usage key) + (prompt_tokens + completion_tokens))

-- A call of a model, for a tenant on a day, with its numbers of tokens.
pub record Call : Type 0 where
  pub tenant_id : String
  pub today : String
  pub prompt_tokens : ℕ
  pub completion_tokens : ℕ

unfoldable pub record_all : List Call → Dict ℕ → Dict ℕ
unfolding record_usage
record_all [] usage = usage
record_all (c ∷ calls) usage =
    record_all calls (record_usage usage c.tenant_id c.today c.prompt_tokens c.completion_tokens)

-- The tokens of the calls that are counted under the key.
abbrev pub tokens_under : String → List Call → ℕ
tokens_under key [] = 0
tokens_under key (c ∷ calls) =
    (if key_of c.tenant_id c.today == key then c.prompt_tokens + c.completion_tokens else 0)
    + tokens_under key calls

used_after :
    (calls : List Call) (usage : Dict ℕ) (key : String)
    → or_0 (get (record_all calls usage) key) ≡ or_0 (get usage key) + tokens_under key calls
unfolding record_all record_usage
used_after [] usage key = omega arith
used_after (c ∷ calls) usage key =
    let k = key_of c.tenant_id c.today in
    let n = or_0 (get usage k) + (c.prompt_tokens + c.completion_tokens) in
    let rest = used_after calls (set usage k n) key in
    elim (Bool-cases (k == key)) [
      | inl e ↦
          let same : get usage k ≡ get usage key = ap (get usage) ((eq_iff k key).0 e) in
          let now_is : get (set usage k n) key ≡ some n = rw (get-set usage k key n, e) refl in
          rw e (omega (arith, rest, ap or_0 now_is, ap or_0 same))
      | inr e ↦
          let now_is : get (set usage k n) key ≡ get usage key =
            rw (get-set usage k key n, e) refl in
          rw e (omega (arith, rest, ap or_0 now_is))
    ]

-- After any calls, of whatever tenants and days, a tenant is allowed another one exactly if the tokens
-- counted for the tenant that day are fewer than the limit, and what remains is the rest of the limit.
pub check_lem :
    (daily_default : ℕ) (calls : List Call) (tenant_id today : String)
    → let status = check daily_default (record_all calls []) tenant_id today in
      ((status.allowed ≡ true) ↔ (tokens_under (key_of tenant_id today) calls < daily_default))
      × (status.remaining ≡ daily_default - tokens_under (key_of tenant_id today) calls)
unfolding check get
check_lem daily_default calls tenant_id today =
    let used = used_after calls [] (key_of tenant_id today) in
    ((λ h. ground (arith, used), λ h. ground (arith, used)), omega (arith, used))
