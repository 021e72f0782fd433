-- ===== src/Metrics/Client.antt =====
-- What internal/metrics/prometheus.go uses of the Prometheus client
-- (github.com/prometheus/client_golang), which is not part of the repository: metrics with labels,
-- over an unknown registry, and the behaviour that the client documents.
use gateway_a.Prelude.{
  ℕ, ◌+◌, ◌≤◌, Text, text_eq, text_beq_iff, String, string_eq, Bool, true, false, not, ◌&&◌, Option,
  none, some, List, [], ◌∷◌, length, all, nat_beq, ℤ, pos, negsuc, pos_part, neg_part, ltb_ℤ,
  is_ascii, ◌+ℤ◌, Float64, Eq, ◌==◌, if◌then◌else◌, ◌≡◌, ◌↔◌, refl, arith,
}

-- prometheus.ExponentialBuckets(start, factor, count), with the literal of the start
pub record Buckets : Type 0 where
  pub start : String
  pub factor : ℕ
  pub count : ℕ

pub data Kind : Type 0 where
  counter gauge : Kind
  histogram : Buckets → Kind

-- A CounterVec, GaugeVec or HistogramVec, by what it is made from.
pub record Vector : Type 0 where
  pub kind : Kind
  pub name : String
  pub help : String
  pub labels : List String

-- The methods Inc, Dec, Add, Set and Observe of a metric.
pub data Change (F : Type 0) : Type 0 where
  inc dec : Change F
  added put observed : F → Change F

-- vector.WithLabelValues(values...), with the method called on the result.
pub record Use (F : Type 0) : Type 0 where
  pub vector : Vector
  pub values : List Text
  pub change : Change F

-- `none` is a panic.
pub record Prometheus (F : Type 0) : Type 1 where
  pub Registry : Type 0
  pub must_register : Vector → Registry → Option Registry
  pub update : Use F → Registry → Option Registry
  -- utf8.ValidString, the sum of two floats, and x < 0
  pub is_valid : Text → Bool
  pub plus : F → F → F
  pub is_negative : F → Bool

abbrev texts_beq : List Text → List Text → Bool
texts_beq [] [] = true
texts_beq (s ∷ ss) (t ∷ ts) = text_eq.beq s t && texts_beq ss ts
texts_beq _ _ = false

pub texts_beq_iff : (ss ts : List Text) → (texts_beq ss ts ≡ true) ↔ (ss ≡ ts)
texts_beq_iff [] [] = (λ _. refl, λ _. refl)
texts_beq_iff [] (t ∷ ts) = ground arith
texts_beq_iff (s ∷ ss) [] = ground arith
texts_beq_iff (s ∷ ss) (t ∷ ts) = ground (arith, text_beq_iff s t, texts_beq_iff ss ts)

instance abbrev pub texts_eq : Eq (List Text)
texts_eq = record { beq = texts_beq; beq_iff = texts_beq_iff }

-- The whole numbers that a float64 holds exactly.
abbrev pub IsExact : ℤ → Type 0
IsExact n = pos_part n + neg_part n ≤ 9007199254740992

module _ {F : Type 0} ⦃f : Float64 F⦄ (P : Prometheus F) where
  -- A counter has no Dec; its Add panics at a negative number.
  abbrev pub lowers : Kind → Change F → Bool
  lowers counter dec = true
  lowers counter (added x) = P.is_negative x
  lowers _ _ = false

  -- WithLabelValues panics unless there is one valid text for each label.
  unfoldable pub fits : Use F → Bool
  fits u =
      nat_beq (length u.values) (length u.vector.labels)
      && all P.is_valid u.values
      && not (lowers u.vector.kind u.change)

  -- The value of a counter or a gauge, or the sum of a histogram, after a method.
  unfoldable pub changed : Change F → F → F
  changed inc x = P.plus x (f.of_int (pos 1))
  changed dec x = P.plus x (f.of_int (negsuc 0))
  changed (added y) x = P.plus x y
  changed (put y) x = y
  changed (observed y) x = P.plus x y

  pub record IsLawful : Type 0 where
    pub is_registered : P.Registry → String → Bool
    pub value : P.Registry → String → List Text → F
    -- a name is registered once
    pub register-new :
        (v : Vector) (s : P.Registry)
        → is_registered s v.name ≡ false
        → (t : P.Registry) × (P.must_register v s ≡ some t)
          × ((n : String) → is_registered t n ≡ (if v.name == n then true else is_registered s n))
          × ((n : String) (ls : List Text) → value t n ls ≡ value s n ls)
    pub register-known :
        (v : Vector) (s : P.Registry) → is_registered s v.name ≡ true → P.must_register v s ≡ none
    pub update-fits :
        (u : Use F) (s : P.Registry)
        → fits u ≡ true
        → (t : P.Registry) × (P.update u s ≡ some t)
          × ((n : String) (ls : List Text)
              → value t n ls ≡ (
                  if u.vector.name == n && u.values == ls
                  then changed u.change (value s n ls)
                  else value s n ls))
    pub update-panics : (u : Use F) (s : P.Registry) → fits u ≡ false → P.update u s ≡ none
    pub ascii-is_valid : (t : Text) → all is_ascii t ≡ true → P.is_valid t ≡ true
    pub plus-exact :
        (a b : ℤ)
        → IsExact a
        → IsExact b
        → IsExact (a +ℤ b)
        → P.plus (f.of_int a) (f.of_int b) ≡ f.of_int (a +ℤ b)
    pub of_int-is_negative : (a : ℤ) → P.is_negative (f.of_int a) ≡ ltb_ℤ a (pos 0)
