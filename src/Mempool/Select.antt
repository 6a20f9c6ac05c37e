-- ===== src/Mempool/Select.antt =====
-- `Mempool.select` (node/mempool.py): the transfers of a block template.
use tal_cash.Base.{
  Bool, Bytes, List, Result, [], bind, bytes_eq, err, false, if◌then◌else◌, leb, length, ltb, map,
  none, ok, out_of_fuel, some, suc, true, value_error, zero, ℕ, ◌&&◌, ◌+◌, ◌||◌, ◌∷◌,
}
use tal_cash.Base.Dict.{Dict, bytes_Key, item, lookup, number_Key, sum_by}
use tal_cash.Mempool.{
  Fraction, Mempool, MempoolEntry, Pending, fee_rate, fraction_eq, fraction_lt, min_key,
}
use tal_cash.Snapshot.{bytes_le}
use tal_cash.Tx.{Transfer}

-- A tuple `(-fee_rate, sender, nonce)` of the heap.
pub record Choice : Type 0 where
  pub rate : Fraction
  pub from : Bytes
  pub nonce : ℕ

unfoldable pub choice_le : Choice → Choice → Bool
choice_le a b =
    fraction_lt b.rate a.rate
    || (fraction_eq a.rate b.rate
        && (if bytes_eq a.from b.from then leb a.nonce b.nonce else bytes_le a.from b.from))

unfoldable pub push_choice : Choice → List Choice → List Choice
push_choice c [] = c ∷ []
push_choice c (d ∷ heap) = if choice_le c d then c ∷ d ∷ heap else d ∷ push_choice c heap

unfoldable pub choice_of : Bytes → ℕ → MempoolEntry → Choice
choice_of address nonce e = record { rate = fee_rate e; from = address; nonce = nonce }

-- The heap of each sender's first transfer.
unfoldable pub first_choices : Dict Pending → Result (List Choice)
first_choices [] = ok []
first_choices ((address, pending) ∷ d) =
    bind (elim (min_key pending) [ none ↦ err value_error | some n ↦ item n pending ])
      λ first.
        bind (first_choices d)
          λ heap. ok (push_choice (choice_of address first.tx.nonce first) heap)

-- `heappush` of the sender's next transfer, if it waits.
unfoldable pub push_following : Bytes → ℕ → Pending → List Choice → List Choice
push_following address nonce pending heap = elim (lookup (nonce + 1) pending) [
  | none ↦ heap
  | some e ↦ push_choice (choice_of address e.tx.nonce e) heap
]

-- The loop, on fuel, with the bytes used so far; what it chooses, in order.
unfoldable pub choose : ℕ → List Choice → ℕ → ℕ → Mempool → Result (List MempoolEntry)
choose fuel [] used max_bytes m = ok []
choose zero (best ∷ heap) used max_bytes m = err out_of_fuel
choose (suc fuel) (best ∷ heap) used max_bytes m = bind (item best.from m.by_sender) λ pending.
    bind (item best.nonce pending) λ e. elim (ltb max_bytes (used + e.size)) [
      | true ↦ choose fuel heap used max_bytes m
      | false ↦
          bind
            (choose fuel (push_following best.from best.nonce pending heap) (used + e.size)
              max_bytes m)
            λ rest. ok (e ∷ rest)
    ]

-- All waiting transfers: each is taken from the heap at most once.
unfoldable pub count_pending : Dict Pending → ℕ
count_pending d = sum_by length d

unfoldable pub select_entries : ℕ → Mempool → Result (List MempoolEntry)
select_entries max_bytes m =
    bind (first_choices m.by_sender) λ heap. choose (count_pending m.by_sender) heap 0 max_bytes m

-- `select`
unfoldable pub select : ℕ → Mempool → Result (List Transfer)
select max_bytes m = bind (select_entries max_bytes m) λ es. ok (map (λ e. e.tx) es)
