-- ===== src/Delivery/Body.antt =====
-- The body of a webhook request: `read_body` of app/operations/webhook_runtime.py. `int(text)` is
-- an argument, `none` being its `ValueError`; a body is a list of bytes, in chunks.
use chat_pulse.Prelude.{
  ℕ, ◌≤◌, ◌≡◌, ◌↔◌, refl, ap, String, Bool, true, false, Option, none, some, List, [], ◌∷◌, ◌++◌,
  length, length-append, ltb, leb, str_eq, if◌then◌else◌, Bool-cases, inl, inr, arith,
}
use chat_pulse.Prelude.Int.{ℤ, pos, negsuc}

pub data BodyResult : Type 0 where
  body : List ℕ → BodyResult
  invalid_length too_large : BodyResult

-- The loop over the stream, from what was read so far.
unfoldable pub read_stream : ℕ → List ℕ → List (List ℕ) → BodyResult
read_stream max_body_bytes read [] = body read
read_stream max_body_bytes read (chunk ∷ chunks) =
    let rest = read_stream max_body_bytes (read ++ chunk) chunks in
    if ltb max_body_bytes (length (read ++ chunk)) then too_large else rest

-- The declared size, if there is one, and then the stream.
unfoldable pub check_declared : ℕ → Option ℤ → BodyResult → BodyResult
check_declared max_body_bytes none rest = invalid_length
check_declared max_body_bytes (some (negsuc n)) rest = invalid_length
check_declared max_body_bytes (some (pos n)) rest = if ltb max_body_bytes n then too_large else rest

unfoldable pub read_body : (String → Option ℤ) → ℕ → Option String → List (List ℕ) → BodyResult
unfolding read_stream check_declared
read_body int max_body_bytes none chunks = read_stream max_body_bytes [] chunks
read_body int max_body_bytes (some declared) chunks =
    if str_eq declared ""
    then read_stream max_body_bytes [] chunks
    else check_declared max_body_bytes (int declared) (read_stream max_body_bytes [] chunks)

abbrev pub concat : List (List ℕ) → List ℕ
concat [] = []
concat (chunk ∷ chunks) = chunk ++ concat chunks

append_assoc : (xs ys zs : List ℕ) → (xs ++ ys) ++ zs ≡ xs ++ (ys ++ zs)
append_assoc [] ys zs = refl
append_assoc (x ∷ xs) ys zs = ap (λ l. x ∷ l) (append_assoc xs ys zs)

append_nil : (xs : List ℕ) → xs ++ [] ≡ xs
append_nil [] = refl
append_nil (x ∷ xs) = ap (λ l. x ∷ l) (append_nil xs)

read_stream_lem :
    (m : ℕ) (read : List ℕ) (chunks : List (List ℕ))
    → length read ≤ m
    → read_stream m read chunks
      ≡ (if leb (length (read ++ concat chunks)) m then body (read ++ concat chunks) else too_large)
unfolding read_stream
read_stream_lem m read [] h = rw append_nil (ground arith)
read_stream_lem m read (chunk ∷ chunks) h = elim (Bool-cases (ltb m (length (read ++ chunk)))) [
  | inl over ↦
      rw (over, ← append_assoc read chunk (concat chunks))
        (ground (arith, length-append (read ++ chunk) (concat chunks)))
  | inr fits ↦ rw (
    fits,
    read_stream_lem m (read ++ chunk) chunks (ground arith),
    append_assoc read chunk (concat chunks),
  )
]

-- A size that was declared, within the limit.
abbrev pub within : ℕ → Option ℤ → Bool
within max_body_bytes none = false
within max_body_bytes (some (negsuc n)) = false
within max_body_bytes (some (pos n)) = leb n max_body_bytes

-- The header is missing, empty, or declares a size within the limit.
abbrev pub honest : (String → Option ℤ) → ℕ → Option String → Bool
honest int max_body_bytes none = true
honest int max_body_bytes (some declared) =
    if str_eq declared "" then true else within max_body_bytes (int declared)

check_declared-body :
    (m : ℕ) (o : Option ℤ) (r : BodyResult) (b : List ℕ)
    → (check_declared m o r ≡ body b) ↔ ((within m o ≡ true) × (r ≡ body b))
unfolding check_declared
check_declared-body m none r b = ((λ h. cc h), λ h. cc (h.0))
check_declared-body m (some (negsuc n)) r b = ((λ h. cc h), λ h. cc (h.0))
check_declared-body m (some (pos n)) r b = elim (Bool-cases (ltb m n)) [
  | inl over ↦ rw over ((λ h. cc h), λ h. absurd (ground (arith, h.0)))
  | inr fits ↦ rw fits ((λ h. (ground arith, h)), λ h. h.1)
]

-- What is accepted of a stream that is read from the start.
stream-body :
    (m : ℕ) (chunks : List (List ℕ)) (b : List ℕ)
    → (read_stream m [] chunks ≡ body b) ↔ ((length (concat chunks) ≤ m) × (b ≡ concat chunks))
stream-body m chunks b =
    rw (read_stream_lem m [] chunks (omega arith))
      elim (Bool-cases (leb (length (concat chunks)) m)) [
        | inl fits ↦ rw fits ((λ h. (ground arith, cc h)), λ h. cc (h.1))
        | inr over ↦ rw over ((λ h. cc h), λ h. absurd (ground (arith, h.0)))
      ]

-- A body is accepted exactly when the header is missing, empty or declares a size within the limit
-- and the bytes that arrive, whatever the header says and however they are cut into chunks, are
-- within it; then it is all of them in their order.
pub read_body_law :
    (int : String → Option ℤ) (m : ℕ) (declared : Option String) (chunks : List (List ℕ))
    (b : List ℕ)
    → (read_body int m declared chunks ≡ body b)
      ↔ ((honest int m declared ≡ true) × ((length (concat chunks) ≤ m) × (b ≡ concat chunks)))
unfolding read_body check_declared
read_body_law int m none chunks b =
    ((λ h. (refl, (stream-body m chunks b).0 h)), λ h. (stream-body m chunks b).1 h.1)
read_body_law int m (some declared) chunks b = elim (Bool-cases (str_eq declared "")) [
  | inl empty ↦
      rw empty ((λ h. (refl, (stream-body m chunks b).0 h)), λ h. (stream-body m chunks b).1 h.1)
  | inr given ↦ rw given (
    (λ h.
        let (ok_, read) = (check_declared-body m (int declared) _ b).0 h in
        (ok_, (stream-body m chunks b).0 read)),
    λ h. (check_declared-body m (int declared) _ b).1 (h.0, (stream-body m chunks b).1 h.1),
  )
]
