-- ===== src/State/Undo.antt =====
-- `MemoryState.apply` and `MemoryState.revert` (core/state.py): the changes of a block are written,
-- and undone.
use tal_cash.Base.{
  Bool, Bytes, Option, Option-cases, [], arith, bytes_eq, bytes_eq_iff, if◌then◌else◌, inl, inr,
  none, ok, refl, some, true, ◌∙◌, ◌∷◌, ◌≡◌, ◌≢◌, ◌⊎◌,
}
use tal_cash.Base.Dict.{
  Dict, IsDict, bytes_Key, contains, lookup, lookup-insert, lookup-remove, number_Key, values,
}
use tal_cash.Block.{Block}
use tal_cash.Crypto.{Crypto}
use tal_cash.Params.{NetworkParams}
use tal_cash.State.{
  Account, BlockContext, MemoryState, StateChanges, account_eq, apply, apply_block, empty_account,
  get_account, get_over, revert, write, write_entry,
}
use tal_cash.State.Ledger.{Applied, Applied-IsTracked, after, apply_block-Applied}
use tal_cash.State.Tracked.{IsTracked}

account_eq_sound : (a b : Account) → account_eq a b ≡ true → a ≡ b
unfolding account_eq
account_eq_sound a b h = ground arith

get_account-write_entry :
    (k a : Bytes) (v : Account) (s : MemoryState)
    → get_account (write_entry k v s) a ≡ (if bytes_eq k a then v else get_account s a)
unfolding get_account write_entry
get_account-write_entry k a v s = ground (
  arith,
  account_eq_sound v empty_account,
  lookup-remove k a s.accounts,
  lookup-insert k a v s.accounts,
)

-- After `_write` every account has its entry in the written dict, or the value that it had.
pub get_account-write :
    (values : Dict Account) (s : MemoryState) (a : Bytes)
    → IsDict values
    → get_account (write values s) a ≡ get_over (lookup a values) (get_account s a)
unfolding write lookup get_over
get_account-write [] s a h = refl
get_account-write ((k, v) ∷ values) s a h = ground (
  arith,
  get_account-write values (write_entry k v s) a h.1,
  get_account-write_entry k a v s,
  bytes_eq_iff k a,
)

-- An account that the second dict holds takes its value there, whatever the first one wrote; any
-- other is not in the first one either.
get_over_twice :
    (first second : Option Account) (below : Account)
    → ((v : Account) → second ≡ some v → v ≡ below)
    → (first ≡ none ⊎ second ≢ none)
    → get_over second (get_over first below) ≡ below
unfolding get_over
get_over_twice none none below same known = refl
get_over_twice (some _) none below same (inl e) = cc
get_over_twice (some _) none below same (inr e) = absurd (e refl)
get_over_twice first (some v) below same known = same v refl

known_of_keys :
    (a : Bytes) (d e : Dict Account)
    → contains a d ≡ contains a e
    → (lookup a d ≡ none) ⊎ (lookup a e ≢ none)
unfolding contains
known_of_keys a d e h = elim (Option-cases (lookup a e)) [
  | inl missing ↦ inl (ground arith)
  | inr (v, found) ↦ inr (λ missing. cc)
]

module _ ⦃c : Crypto⦄ where
  module _ (block : Block) (ctx : BlockContext) (s : MemoryState) (params : NetworkParams)
      (check_pow : Bool) (changes : StateChanges) (a : Bytes)
      (accepted : apply_block block ctx (get_account s) params check_pow ≡ ok changes) where
    applied :
        Applied block.transactions block.header.height ctx.matured_coinbase
          (get_account s)
          params
          changes
    applied = apply_block-Applied block ctx (get_account s) params check_pow changes accepted

    tracked : IsTracked (get_account s) applied.closed
    tracked = Applied-IsTracked applied

    -- If apply_block accepts a block over a MemoryState, the state to which the changes are applied
    -- reads at every address what the block computed.
    pub get_account-apply : get_account (apply s changes) a ≡ after (get_account s) changes a
    unfolding apply
    get_account-apply =
        get_account-write changes.accounts s a (rw applied.accounts tracked.accounts_dict)

    -- If apply_block accepts a block over a MemoryState, then applying the changes and reverting
    -- them gives every address the account that it had before.
    pub get_account-revert : get_account (revert (apply s changes) changes) a ≡ get_account s a
    unfolding revert apply
    get_account-revert =
        get_account-write changes.previous (write changes.accounts s) a
          (rw applied.previous tracked.previous_dict)
        ∙ rw (get_account-write changes.accounts s a (rw applied.accounts tracked.accounts_dict)) (
            get_over_twice (lookup a changes.accounts) (lookup a changes.previous) (get_account s a)
              (rw applied.previous (tracked.undo a))
              (rw (applied.accounts, applied.previous)
                (known_of_keys a applied.closed.accounts applied.closed.previous
                  (tracked.same_keys a))))

    pub previous-IsDict : IsDict changes.previous
    previous-IsDict = rw applied.previous tracked.previous_dict
