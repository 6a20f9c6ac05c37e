-- ===== src/Store/Undo.antt =====
-- Undo data and accounts in node/store.py.
use tal_cash.Base.{
  All, Bytes, [], ap, append-nil, append_assoc, arith, bind, bytes_eq_iff, drop, drop-prefix,
  length, length-append, none, ok, refl, some, subst, suc, sym, take, take-prefix, zero, ℕ, ◌++◌,
  ◌<◌, ◌^◌, ◌∙◌, ◌∷◌, ◌≡◌, ◌≤◌,
}
use tal_cash.Base.Dict.{
  Dict, IsDict, IsDict-append, bytes_Key, insert, insert_new, lookup, lookup-insert, lookup-none,
  number_Key, remove-insert_new,
}
use tal_cash.Encoding.{from_bytes, to_bytes}
use tal_cash.Encoding.BigEndian.{from_bytes-to_bytes, int_to_bytes_fits, length-to_bytes}
use tal_cash.State.{Account}
use tal_cash.Store.{Store, insert_row, put_undo, read_undo, take_undo, undo_bytes}

-- What an entry of undo data can hold.
abbrev pub IsUndoEntry : Bytes × Account → Type 0
IsUndoEntry (address, v) = (length address ≡ 21) × (v.balance < 256 ^ 8) × (v.nonce < 256 ^ 8)

-- The three parts of an entry, before the rest.
record UndoParts (address balance nonce rest octets : Bytes) : Type 0 where
  entry : take 37 octets ≡ address ++ (balance ++ nonce)
  after : drop 37 octets ≡ rest

entry_parts :
    (address balance nonce rest : Bytes)
    → length address ≡ 21
    → length balance ≡ 8
    → length nonce ≡ 8
    → UndoParts address balance nonce rest (address ++ (balance ++ (nonce ++ rest)))
entry_parts address balance nonce rest h₁ h₂ h₃ =
    let whole : address ++ (balance ++ (nonce ++ rest)) ≡ (address ++ (balance ++ nonce)) ++ rest =
      ap (λ t. address ++ t) (sym (append_assoc balance nonce rest))
      ∙ sym (append_assoc address (balance ++ nonce) rest) in
    let size : length (address ++ (balance ++ nonce)) ≡ 37 =
      omega (arith, length-append address (balance ++ nonce), length-append balance nonce) in
    record {
      entry = ap (take 37) whole ∙ take-prefix 37 (address ++ (balance ++ nonce)) rest size;
      after = ap (drop 37) whole ∙ drop-prefix 37 (address ++ (balance ++ nonce)) rest size;
    }

-- A round of the loop.
read_undo_more :
    (fuel : ℕ) (address rest octets : Bytes) (v : Account) (previous : Dict Account)
    → IsUndoEntry (address, v)
    → UndoParts address (to_bytes 8 v.balance) (to_bytes 8 v.nonce) rest octets
    → read_undo (suc fuel) octets previous ≡ read_undo fuel rest (insert address v previous)
unfolding read_undo
read_undo_more fuel address rest [] v previous fits e = absurd (
    omega (
      arith,
      fits.0,
      ap length e.entry,
      length-append address (to_bytes 8 v.balance ++ to_bytes 8 v.nonce),
    ))
read_undo_more fuel address rest (b ∷ octets) v previous fits e =
    let balance = to_bytes 8 v.balance in
    let nonce = to_bytes 8 v.nonce in
    let eight = length-to_bytes 8 v.balance in
    let at_address : take 21 (take 37 (b ∷ octets)) ≡ address =
      ap (take 21) e.entry ∙ take-prefix 21 address (balance ++ nonce) fits.0 in
    let at_balance : from_bytes (take 8 (drop 21 (take 37 (b ∷ octets)))) ≡ v.balance =
      ap (λ t. from_bytes (take 8 (drop 21 t))) e.entry
      ∙ ap (λ t. from_bytes (take 8 t)) (drop-prefix 21 address (balance ++ nonce) fits.0)
      ∙ ap from_bytes (take-prefix 8 balance nonce eight)
      ∙ from_bytes-to_bytes 8 v.balance fits.1 in
    let at_nonce : from_bytes (drop 29 (take 37 (b ∷ octets))) ≡ v.nonce =
      ap (λ t. from_bytes (drop 29 t)) (e.entry ∙ sym (append_assoc address balance nonce))
      ∙ ap from_bytes (
          drop-prefix 29 (address ++ balance) nonce
            (omega (arith, length-append address balance, fits.0, eight)))
      ∙ from_bytes-to_bytes 8 v.nonce fits.2 in
    rw (read_undo, at_address, at_balance, at_nonce, e.after) refl

read_undo_none : (fuel : ℕ) (known : Dict Account) → read_undo fuel [] known ≡ known
unfolding read_undo
read_undo_none zero known = refl
read_undo_none (suc fuel) known = refl

regrouped :
    (known : Dict Account) (a : Bytes) (v : Account) (previous : Dict Account)
    → IsDict (known ++ (a, v) ∷ previous)
    → IsDict ((known ++ (a, v) ∷ []) ++ previous)
regrouped known a v previous dict =
    subst IsDict (sym (append_assoc known ((a, v) ∷ []) previous)) dict

abbrev entry_bytes : Bytes → Account → Bytes → Bytes
entry_bytes a v rest = a ++ (to_bytes 8 v.balance ++ (to_bytes 8 v.nonce ++ rest))

undo_bytes-more :
    (a rest : Bytes) (v : Account) (previous : Dict Account)
    → IsUndoEntry (a, v)
    → undo_bytes previous ≡ ok rest
    → undo_bytes ((a, v) ∷ previous) ≡ ok (entry_bytes a v rest)
unfolding undo_bytes
undo_bytes-more a rest v previous fits h =
    rw (undo_bytes, int_to_bytes_fits 8 v.balance fits.1, int_to_bytes_fits 8 v.nonce fits.2, h)
      refl

-- An entry uses up some of the fuel.
fuel_left :
    (fuel : ℕ) (a rest : Bytes) (v : Account)
    → length (entry_bytes a v rest) ≤ fuel
    → (k : ℕ) × (fuel ≡ suc k) × (length rest ≤ k)
fuel_left zero a rest v enough = absurd (
    omega (
      arith,
      length-append a (to_bytes 8 v.balance ++ (to_bytes 8 v.nonce ++ rest)),
      length-append (to_bytes 8 v.balance) (to_bytes 8 v.nonce ++ rest),
      length-to_bytes 8 v.balance,
    ))
fuel_left (suc k) a rest v enough = (
  k,
  refl,
  omega (
    arith,
    length-append a (to_bytes 8 v.balance ++ (to_bytes 8 v.nonce ++ rest)),
    length-append (to_bytes 8 v.balance) (to_bytes 8 v.nonce ++ rest),
    length-append (to_bytes 8 v.nonce) rest,
    length-to_bytes 8 v.balance,
  ),
)

pub read_undo-undo_bytes :
    (known previous : Dict Account)
    → All IsUndoEntry previous
    → IsDict (known ++ previous)
    → (octets : Bytes) × (undo_bytes previous ≡ ok octets)
      × ((fuel : ℕ) → length octets ≤ fuel → read_undo fuel octets known ≡ known ++ previous)
unfolding undo_bytes
read_undo-undo_bytes known [] fits dict =
    ([], refl, λ fuel _. read_undo_none fuel known ∙ sym (append-nil known))
read_undo-undo_bytes known ((a, v) ∷ previous) fits dict =
    let (rest, packed, reads) =
      read_undo-undo_bytes (known ++ (a, v) ∷ []) previous fits.1
        (regrouped known a v previous dict) in
    let parts =
      entry_parts a (to_bytes 8 v.balance) (to_bytes 8 v.nonce) rest fits.0.0
        (length-to_bytes 8 v.balance) (length-to_bytes 8 v.nonce) in
    (
      entry_bytes a v rest,
      undo_bytes-more a rest v previous fits.0 packed,
      λ fuel enough.
          let (k, is_suc, left) = fuel_left fuel a rest v enough in
          ap (λ n. read_undo n (entry_bytes a v rest) known) is_suc
          ∙ read_undo_more k a rest (entry_bytes a v rest) v known fits.0 parts
          ∙ ap (read_undo k rest) (insert_new a v known (IsDict-append a v known previous dict))
          ∙ reads k left
          ∙ append_assoc known ((a, v) ∷ []) previous,
    )

-- If a block has no undo data, and the given accounts have different addresses of 21 bytes and
-- numbers below 2^64, then put_undo succeeds and take_undo returns the same accounts and the store
-- as it was.
pub take_undo-put_undo :
    (id : Bytes) (previous : Dict Account) (s : Store)
    → lookup id s.undo ≡ none
    → IsDict previous
    → All IsUndoEntry previous
    → bind (put_undo id previous s) (take_undo id) ≡ ok (previous, s)
unfolding put_undo take_undo insert_row
take_undo-put_undo id previous s free dict fits =
    let (octets, packed, reads) = read_undo-undo_bytes [] previous fits dict in
    let found : lookup id (insert id octets s.undo) ≡ some octets =
      ground (arith, lookup-insert id id octets s.undo, bytes_eq_iff id id) in
    rw
      (
        put_undo,
        packed,
        insert_row,
        lookup-none id s.undo free,
        take_undo,
        found,
        reads (length octets) (omega arith),
        remove-insert_new id octets s.undo free,
      )
      refl
