-- ===== src/Store/Decimal.antt =====
-- The decimal numbers inside the keys of internal/store/schema.go: fmt's `%020d`, and strconv's
-- ParseUint and ParseInt on digits.
use mathlib.Core.List.{append_assoc}
use native.Mathlib.Nat.{pow-suc}
use xsync.Prelude.{
  ℕ, zero, suc, ◌+◌, ◌-◌, ◌*◌, ◌/◌, ◌%◌, ◌^◌, ◌<◌, ◌≡◌, ◌∙◌, ap, subst, true, false, ◌&&◌, Option,
  none, some, [], ◌∷◌, ◌++◌, arith, ltb, leb, ◌==◌, if◌then◌else◌, if_intro,
}
use xsync.Prelude.Bytes.{Bytes, Lacks, Lacks-append, bytes_lt}

-- The last `k` decimal digits of `n`, most significant first.
unfoldable pub digits : ℕ → ℕ → Bytes
digits zero n = []
digits (suc k) n = digits k (n / 10) ++ (b'0' + n % 10) ∷ []

-- The number that a run of digits denotes, after `acc`; `none` at any other byte.
unfoldable pub parse_digits : ℕ → Bytes → Option ℕ
parse_digits acc [] = some acc
parse_digits acc (c ∷ s) =
    let rest = parse_digits (acc * 10 + (c - b'0')) s in
    if leb b'0' c && leb c b'9' then rest else none

pub Lacks-digits : (sep k n : ℕ) → sep < b'0' → Lacks sep (digits k n)
unfolding digits
Lacks-digits sep zero n h = tt
Lacks-digits sep (suc k) n h =
    Lacks-append sep (digits k (n / 10)) _ (Lacks-digits sep k (n / 10) h)
      ((λ e. absurd (omega arith)), tt)

parse_one :
    (acc d : ℕ) (rest : Bytes)
    → d < 10
    → parse_digits acc ((b'0' + d) ∷ rest) ≡ parse_digits (acc * 10 + d) rest
unfolding parse_digits
parse_one acc d rest h =
    if_intro (λ (l : Option ℕ). l ≡ parse_digits (acc * 10 + d) rest)
      (leb b'0' (b'0' + d) && leb (b'0' + d) b'9')
      (λ fine. ap (λ (a : ℕ). parse_digits a rest) (omega arith)) (λ e. ground arith)

pub parse_digits-digits :
    (k acc n : ℕ) (rest : Bytes)
    → n < 10 ^ k
    → parse_digits acc (digits k n ++ rest) ≡ parse_digits (acc * 10 ^ k + n) rest
unfolding digits
parse_digits-digits zero acc n rest h = ap (λ (a : ℕ). parse_digits a rest) (omega arith)
parse_digits-digits (suc k) acc n rest h =
    let step : n < 10 ^ k * 10 = subst (λ t. n < t) (pow-suc 10 k) h in
    rw append_assoc (
      rw (parse_digits-digits k acc (n / 10) ((b'0' + n % 10) ∷ rest) (omega arith)) (
        parse_one (acc * 10 ^ k + n / 10) (n % 10) rest (omega arith)
        ∙ ap (λ (a : ℕ). parse_digits a rest)
            (omega (arith, ap (λ (t : ℕ). acc * t) (pow-suc 10 k)))))

-- Numbers of the same width compare as their digits do.
pub bytes_lt-digits :
    (k a b : ℕ) (s t : Bytes)
    → a < 10 ^ k
    → b < 10 ^ k
    → bytes_lt (digits k a ++ s) (digits k b ++ t)
      ≡ (if ltb a b then true else if a == b then bytes_lt s t else false)
unfolding digits
bytes_lt-digits zero a b s t h k = ground arith
bytes_lt-digits (suc k) a b s t h g =
    let ha : a < 10 ^ k * 10 = subst (λ u. a < u) (pow-suc 10 k) h in
    let hb : b < 10 ^ k * 10 = subst (λ u. b < u) (pow-suc 10 k) g in
    rw
      (
        append_assoc (digits k (a / 10)) ((b'0' + a % 10) ∷ []) s,
        append_assoc (digits k (b / 10)) ((b'0' + b % 10) ∷ []) t,
      )
      (rw
        (bytes_lt-digits k (a / 10) (b / 10) ((b'0' + a % 10) ∷ s) ((b'0' + b % 10) ∷ t)
          (omega arith) (omega arith))
        (unfold bytes_lt in ground arith))
