-- ===== src/Tests/BitFields.antt =====
-- A bit field library that keeps its promises, for the packets of the tests: fields are lists of bits,
-- most significant first, packed eight to a byte.
use mathlib.Core.List.{append_assoc}
use smart_nic.Rdma.BitFields.{BitFields, IsLawful, Fits, total_bits}
use smart_nic.Base.{
  ℕ, List, [], ◌∷◌, length, ◌++◌, ◌<◌, suc, ◌∙◌, ◌/◌, ◌*◌, take, ◌%◌, ◌≡◌, ◌^◌, ◌+◌, drop, get_or,
  arith, sym, zero, length-append, ap, refl,
}

-- The `w` low bits of a number.
abbrev pub field_bits : ℕ → ℕ → List ℕ
field_bits zero v = []
field_bits (suc w) v = field_bits w (v / 2) ++ (v % 2 ∷ [])

abbrev pub value_from : ℕ → List ℕ → ℕ
value_from acc [] = acc
value_from acc (b ∷ bs) = value_from (2 * acc + b) bs

abbrev pub all_bits : List ℕ → List ℕ → List ℕ
all_bits (w ∷ ws) (v ∷ vs) = field_bits w v ++ all_bits ws vs
all_bits _ _ = []

abbrev pub read_bits : List ℕ → List ℕ → List ℕ
read_bits [] bits = []
read_bits (w ∷ ws) bits = value_from 0 (take w bits) ∷ read_bits ws (drop w bits)

abbrev pub pack : List ℕ → List ℕ
pack (a ∷ b ∷ c ∷ d ∷ e ∷ f ∷ g ∷ h ∷ rest) =
    (128 * a + 64 * b + 32 * c + 16 * d + 8 * e + 4 * f + 2 * g + h) ∷ pack rest
pack _ = []

abbrev pub unpack : List ℕ → List ℕ
unpack [] = []
unpack (x ∷ xs) =
    (x / 128 % 2)
    ∷ (x / 64 % 2)
    ∷ (x / 32 % 2)
    ∷ (x / 16 % 2)
    ∷ (x / 8 % 2)
    ∷ (x / 4 % 2)
    ∷ (x / 2 % 2)
    ∷ (x % 2)
    ∷ unpack xs

abbrev pub bit_fields : BitFields
bit_fields = record {
  serialize = λ ws vs. pack (all_bits ws vs);
  deserialize = λ ws bytes. read_bits ws (unpack bytes);
  write_aligned = λ x. pack (all_bits (32 ∷ []) (x % 2 ^ 32 ∷ []));
  read_aligned = λ bytes. get_or (read_bits (32 ∷ []) (unpack bytes)) 0 0;
}

abbrev AllBits : List ℕ → Type 0
AllBits [] = Unit
AllBits (b ∷ bs) = (b < 2) × AllBits bs

length-field_bits : (w v : ℕ) → length (field_bits w v) ≡ w
length-field_bits zero v = refl
length-field_bits (suc w) v =
    omega (arith, length-append (field_bits w (v / 2)) (v % 2 ∷ []), length-field_bits w (v / 2))

value_from-append :
    (acc : ℕ) (xs ys : List ℕ) → value_from acc (xs ++ ys) ≡ value_from (value_from acc xs) ys
value_from-append acc [] ys = refl
value_from-append acc (x ∷ xs) ys = value_from-append (2 * acc + x) xs ys

value_from-field_bits : (w v : ℕ) → v < 2 ^ w → value_from 0 (field_bits w v) ≡ v
value_from-field_bits zero v h = omega (arith, h)
value_from-field_bits (suc w) v h =
    let half = value_from-field_bits w (v / 2) (omega (arith, h)) in
    rw value_from-append (rw half (omega arith))

AllBits-append : (xs ys : List ℕ) → AllBits xs → AllBits ys → AllBits (xs ++ ys)
AllBits-append [] ys h k = k
AllBits-append (x ∷ xs) ys (h, hs) k = (h, AllBits-append xs ys hs k)

field_bits-AllBits : (w v : ℕ) → AllBits (field_bits w v)
field_bits-AllBits zero v = tt
field_bits-AllBits (suc w) v =
    AllBits-append (field_bits w (v / 2)) (v % 2 ∷ []) (field_bits-AllBits w (v / 2))
      (omega arith, tt)

all_bits-AllBits : (ws vs : List ℕ) → AllBits (all_bits ws vs)
all_bits-AllBits (w ∷ ws) (v ∷ vs) =
    AllBits-append (field_bits w v) _ (field_bits-AllBits w v) (all_bits-AllBits ws vs)
all_bits-AllBits (w ∷ ws) [] = tt
all_bits-AllBits [] vs = tt

length-all_bits : (ws vs : List ℕ) → Fits ws vs → length (all_bits ws vs) ≡ total_bits ws
length-all_bits [] [] h = refl
length-all_bits (w ∷ ws) (v ∷ vs) (h, hs) = omega (
  arith,
  length-append (field_bits w v) (all_bits ws vs),
  length-field_bits w v,
  length-all_bits ws vs hs,
)
length-all_bits [] (v ∷ vs) h = absurd h
length-all_bits (w ∷ ws) [] h = absurd h

take-append : (w : ℕ) (xs ys : List ℕ) → length xs ≡ w → take w (xs ++ ys) ≡ xs
take-append w [] ys e = rw (sym e) refl
take-append w (x ∷ xs) ys e = rw (sym e) (ap (λ r. x ∷ r) (take-append _ xs ys refl))

drop-append : (w : ℕ) (xs ys : List ℕ) → length xs ≡ w → drop w (xs ++ ys) ≡ ys
drop-append w [] ys e = rw (sym e) refl
drop-append w (x ∷ xs) ys e = rw (sym e) (drop-append _ xs ys refl)

read_bits-all_bits : (ws vs rest : List ℕ) → Fits ws vs → read_bits ws (all_bits ws vs ++ rest) ≡ vs
read_bits-all_bits [] [] rest h = refl
read_bits-all_bits (w ∷ ws) (v ∷ vs) rest (h, hs) =
    let xs = field_bits w v in
    let ys = all_bits ws vs ++ rest in
    rw append_assoc (
      rw (take-append w xs ys (length-field_bits w v)) (
        rw (drop-append w xs ys (length-field_bits w v))
          (rw (value_from-field_bits w v h) (ap (λ r. v ∷ r) (read_bits-all_bits ws vs rest hs)))))
read_bits-all_bits [] (v ∷ vs) rest h = absurd h
read_bits-all_bits (w ∷ ws) [] rest h = absurd h

octet :
    (a b c d e f g h : ℕ) (rest : List ℕ)
    → AllBits (a ∷ b ∷ c ∷ d ∷ e ∷ f ∷ g ∷ h ∷ [])
    → let x = 128 * a + 64 * b + 32 * c + 16 * d + 8 * e + 4 * f + 2 * g + h in
      (x / 128 % 2)
        ∷ (x / 64 % 2)
        ∷ (x / 32 % 2)
        ∷ (x / 16 % 2)
        ∷ (x / 8 % 2)
        ∷ (x / 4 % 2)
        ∷ (x / 2 % 2)
        ∷ (x % 2)
        ∷ rest
      ≡ a ∷ b ∷ c ∷ d ∷ e ∷ f ∷ g ∷ h ∷ rest
octet a b c d e f g h rest all = ground (arith, all)

-- Whole bytes of bits are packed into as many bytes, and unpacked to what they were.
pack_back :
    (n : ℕ) (bits : List ℕ)
    → length bits ≡ 8 * n
    → (length (pack bits) ≡ n)
      × ((rest : List ℕ) → AllBits bits → unpack (pack bits ++ rest) ≡ bits ++ unpack rest)
pack_back zero [] l = (refl, λ rest all. refl)
pack_back zero (a ∷ bits) l = absurd (omega (arith, l))
pack_back (suc n) (a ∷ b ∷ c ∷ d ∷ e ∷ f ∷ g ∷ h ∷ bits) l =
    let (size, back) = pack_back n bits (omega (arith, l)) in
    (
      omega (arith, size),
      λ rest all. rw (back rest all.1.1.1.1.1.1.1.1) (
          octet a b c d e f g h _ (
            all.0,
            (
              all.1.0,
              (
                all.1.1.0,
                (
                  all.1.1.1.0,
                  (
                    all.1.1.1.1.0,
                    (all.1.1.1.1.1.0, (all.1.1.1.1.1.1.0, (all.1.1.1.1.1.1.1.0, tt))),
                  ),
                ),
              ),
            ),
          )),
    )
pack_back (suc n) [] l = absurd (omega (arith, l))
pack_back (suc n) (a ∷ []) l = absurd (omega (arith, l))
pack_back (suc n) (a ∷ b ∷ []) l = absurd (omega (arith, l))
pack_back (suc n) (a ∷ b ∷ c ∷ []) l = absurd (omega (arith, l))
pack_back (suc n) (a ∷ b ∷ c ∷ d ∷ []) l = absurd (omega (arith, l))
pack_back (suc n) (a ∷ b ∷ c ∷ d ∷ e ∷ []) l = absurd (omega (arith, l))
pack_back (suc n) (a ∷ b ∷ c ∷ d ∷ e ∷ f ∷ []) l = absurd (omega (arith, l))
pack_back (suc n) (a ∷ b ∷ c ∷ d ∷ e ∷ f ∷ g ∷ []) l = absurd (omega (arith, l))

read_back_lem :
    (ws vs rest : List ℕ) (n : ℕ)
    → Fits ws vs
    → total_bits ws ≡ 8 * n
    → read_bits ws (unpack (pack (all_bits ws vs) ++ rest)) ≡ vs
read_back_lem ws vs rest n fits e =
    let whole = pack_back n (all_bits ws vs) (length-all_bits ws vs fits ∙ e) in
    rw (whole.1 rest (all_bits-AllBits ws vs)) (read_bits-all_bits ws vs (unpack rest) fits)

aligned_back_lem : (x : ℕ) → x < 2 ^ 32 → bit_fields.read_aligned (bit_fields.write_aligned x) ≡ x
aligned_back_lem x h =
    let small : x % 2 ^ 32 < 2 ^ 32 = omega arith in
    let read = read_back_lem (32 ∷ []) (x % 2 ^ 32 ∷ []) [] 4 (small, tt) refl in
    let same : x % 2 ^ 32 ≡ x = omega (arith, h) in ap (λ vs. get_or vs 0 0) read ∙ same

pub lawful : IsLawful bit_fields
lawful = record {
  size = λ ws vs n fits e. (pack_back n (all_bits ws vs) (length-all_bits ws vs fits ∙ e)).0;
  read_back = read_back_lem;
  aligned_size = λ x. refl;
  aligned_back = λ x h. aligned_back_lem x h;
}
