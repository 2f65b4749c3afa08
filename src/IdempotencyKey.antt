-- ===== src/IdempotencyKey.antt =====
-- `DMJob.idempotency_key` of app/models.py, as a list of code points, and a reader of such
-- keys.
use linkplease_tech_assignme.Base.{
  ℕ, zero, suc, ◌+◌, ◌-◌, ◌*◌, ◌/◌, ◌%◌, ◌<◌, ◌≡◌, refl, sym, ap, ◌∙◌, Bool, true, ◌&&◌, List, [],
  ◌∷◌, ◌++◌, arith, leb, ltb, ◌==◌, if◌then◌else◌, Bool-cases, inl, inr, codes, ltb→lt, ==_iff,
}
use mathlib.Core.List.{append-nil}
use linkplease_tech_assignme.Models.{DmJob}

-- `str(n)`: the digits of `n`, the last one first found. The fuel `n + 1` is enough.
digits_go : ℕ → ℕ → List ℕ → List ℕ
digits_go zero n later = later
digits_go (suc fuel) n later =
    let rest = digits_go fuel (n / 10) ((b'0' + n % 10) ∷ later) in
    if ltb n 10 then (b'0' + n % 10) ∷ later else rest

pub decimal : ℕ → List ℕ
unfolding digits_go
decimal n = digits_go (n + 1) n []

key_of : ℕ → ℕ → List ℕ
key_of id cycle =
    if cycle == 0
    then codes "dm-job-" ++ decimal id
    else codes "dm-job-" ++ (decimal id ++ (codes "-r" ++ decimal cycle))

unfoldable pub idempotency_key : DmJob → List ℕ
unfolding key_of
idempotency_key j = key_of j.id j.send_cycle

is_digit : ℕ → Bool
is_digit c = leb b'0' c && leb c b'9'

-- Reads digits as far as they go.
read_digits : ℕ → List ℕ → ℕ × List ℕ
unfolding is_digit
read_digits v [] = (v, [])
read_digits v (c ∷ cs) = if is_digit c then read_digits (v * 10 + (c - b'0')) cs else (v, c ∷ cs)

read_digit :
    (v n : ℕ) (cs : List ℕ)
    → read_digits v ((b'0' + n % 10) ∷ cs) ≡ read_digits (v * 10 + n % 10) cs
unfolding read_digits
read_digit v n cs = rw (digit_test n) (ap (λ k. read_digits (v * 10 + k) cs) (omega arith))
  where
    digit_test : (n : ℕ) → is_digit (b'0' + n % 10) ≡ true
    digit_test n = ground arith

read-digits_go :
    (fuel n : ℕ) (later rest : List ℕ)
    → n < fuel
    → read_digits 0 (digits_go fuel n later ++ rest) ≡ read_digits n (later ++ rest)
unfolding digits_go
read-digits_go zero n later rest h = absurd (omega arith)
read-digits_go (suc fuel) n later rest h = elim (Bool-cases (ltb n 10)) [
  | inl small ↦
      rw (small, read_digit 0 n (later ++ rest))
        (ap (λ k. read_digits k (later ++ rest)) (omega (arith, ltb→lt n 10 small)))
  | inr big ↦ rw big (
      read-digits_go fuel (n / 10) ((b'0' + n % 10) ∷ later) rest (ground arith)
      ∙ (read_digit (n / 10) n (later ++ rest)
          ∙ ap (λ k. read_digits k (later ++ rest)) (omega arith)))
]

-- The digits of a number are read back.
read-decimal : (n : ℕ) (rest : List ℕ) → read_digits 0 (decimal n ++ rest) ≡ read_digits n rest
unfolding decimal
read-decimal n rest = read-digits_go (n + 1) n [] rest (omega arith)

abbrev drop : ℕ → List ℕ → List ℕ
drop zero cs = cs
drop (suc n) [] = []
drop (suc n) (c ∷ cs) = drop n cs

read_cycle : ℕ → List ℕ → ℕ × ℕ
read_cycle id [] = (id, 0)
read_cycle id (c ∷ cs) = (id, (read_digits 0 (drop 1 cs)).0)

read_whole : (n : ℕ) → read_digits 0 (decimal n) ≡ (n, [])
unfolding read_digits
read_whole n = ap (read_digits 0) (sym (append-nil (decimal n))) ∙ read-decimal n []

read_until : (n : ℕ) (cs : List ℕ) → read_digits 0 (decimal n ++ b'-' ∷ cs) ≡ (n, b'-' ∷ cs)
unfolding read_digits
read_until n cs = read-decimal n (b'-' ∷ cs)

-- The two shapes of a key, behind its seven first characters.
read_rest : List ℕ → ℕ × ℕ
unfolding read_cycle
read_rest key = let (id, rest) = read_digits 0 key in read_cycle id rest

read_plain : (id : ℕ) → read_rest (decimal id) ≡ (id, 0)
unfolding read_rest
read_plain id = rw (read_whole id)

read_cycled : (id cycle : ℕ) → read_rest (decimal id ++ b'-' ∷ (b'r' ∷ decimal cycle)) ≡ (id, cycle)
unfolding read_rest
read_cycled id cycle = rw (read_until id (b'r' ∷ decimal cycle)) (rw (read_whole cycle))

-- Reads the key of a job: its primary key and its send cycle.
pub read_key : List ℕ → ℕ × ℕ
unfolding read_rest
read_key key = read_rest (drop 7 key)

read-key_of : (id cycle : ℕ) → read_key (key_of id cycle) ≡ (id, cycle)
unfolding key_of read_key
read-key_of id cycle = elim (Bool-cases (cycle == 0)) [
  | inl e ↦ rw e (read_plain id ∙ ap (λ c. (id, c)) (sym ((==_iff cycle 0).0 e)))
  | inr e ↦ rw e (read_cycled id cycle)
]

-- From the idempotency key of a job its primary key and its send cycle can be read back.
pub read-idempotency_key : (j : DmJob) → read_key (idempotency_key j) ≡ (j.id, j.send_cycle)
unfolding idempotency_key
read-idempotency_key j = read-key_of j.id j.send_cycle

pub idempotency_key-injective :
    (j k : DmJob)
    → idempotency_key j ≡ idempotency_key k
    → (j.id ≡ k.id) × (j.send_cycle ≡ k.send_cycle)
idempotency_key-injective j k e =
    let same = sym (read-idempotency_key j) ∙ (ap read_key e ∙ read-idempotency_key k) in
    (ap (λ (p : ℕ × ℕ). p.0) same, ap (λ (p : ℕ × ℕ). p.1) same)

-- The key reads the primary key and the send cycle alone.
pub idempotency_key_cong :
    (j k : DmJob)
    → j.id ≡ k.id
    → j.send_cycle ≡ k.send_cycle
    → idempotency_key j ≡ idempotency_key k
unfolding idempotency_key
idempotency_key_cong j k e c = ap (λ i. key_of i j.send_cycle) e ∙ ap (key_of k.id) c

-- It is not empty.
pub idempotency_key_given : (j : DmJob) → (c : ℕ) × (cs : List ℕ) × (idempotency_key j ≡ c ∷ cs)
unfolding idempotency_key key_of
idempotency_key_given j = elim (Bool-cases (j.send_cycle == 0)) [
  | inl e ↦ rw e (_, _, refl)
  | inr e ↦ rw e (_, _, refl)
]
