-- ===== src/Metrics/Memory.antt =====
-- A registry in memory that meets what the theorems on internal/metrics/prometheus.go ask of the
-- Prometheus client, over whole numbers.
use gateway_a.Prelude.{
  Text, String, string_eq, Bool, true, false, Option, none, some, ℤ, pos, ltb_ℤ, ◌+ℤ◌, ◌&&◌, ◌==◌,
  if◌then◌else◌, ◌≡◌, refl, ap, List, all, is_ascii,
}
use gateway_a.Samples.{whole}
use gateway_a.Metrics.Client.{Vector, Use, Prometheus, IsLawful, fits, changed, texts_eq}

pub record Held : Type 0 where
  pub names : String → Bool
  pub values : String → List Text → ℤ

abbrev pub empty : Held
empty = record { names = λ n. false; values = λ n ls. pos 0 }

abbrev register : Vector → Held → Option Held
register v s =
    if s.names v.name
    then none
    else some (record s { names = λ n. if v.name == n then true else s.names n })

-- The client, but for the methods of a metric.
abbrev client : Prometheus ℤ
client = record {
  Registry = Held;
  must_register = register;
  update = λ u s. none;
  is_valid = λ t. all is_ascii t;
  plus = λ a b. a +ℤ b;
  is_negative = λ a. ltb_ℤ a (pos 0);
}

abbrev written : Use ℤ → Held → Held
written u s = record s {
  values = λ n ls.
      if u.vector.name == n && u.values == ls
      then changed client u.change (s.values n ls)
      else s.values n ls;
}

abbrev use_of : Use ℤ → Held → Option Held
use_of u s = if fits client u then some (written u s) else none

abbrev pub memory : Prometheus ℤ
memory = record client { update = use_of }

pub register-new :
    (v : Vector) (s : Held)
    → s.names v.name ≡ false
    → (t : Held) × (register v s ≡ some t)
      × ((n : String) → t.names n ≡ (if v.name == n then true else s.names n))
      × ((n : String) (ls : List Text) → t.values n ls ≡ s.values n ls)
register-new v s h = (
  record s { names = λ n. if v.name == n then true else s.names n },
  rw h refl,
  λ n. refl,
  λ n ls. refl,
)

pub register-known : (v : Vector) (s : Held) → s.names v.name ≡ true → register v s ≡ none
register-known v s h = rw h refl

pub update-fits :
    (u : Use ℤ) (s : Held)
    → fits memory u ≡ true
    → (t : Held) × (use_of u s ≡ some t)
      × ((n : String) (ls : List Text)
          → t.values n ls ≡ (
              if u.vector.name == n && u.values == ls
              then changed memory u.change (s.values n ls)
              else s.values n ls))
unfolding fits changed
update-fits u s h = (written u s, ap (λ b. if b then some (written u s) else none) h, λ n ls. refl)

pub update-panics : (u : Use ℤ) (s : Held) → fits memory u ≡ false → use_of u s ≡ none
unfolding fits
update-panics u s h = ap (λ b. if b then some (written u s) else none) h

unfoldable pub memory-IsLawful : IsLawful memory
memory-IsLawful = record {
  is_registered = λ s n. s.names n;
  value = λ s n ls. s.values n ls;
  register-new = register-new;
  register-known = register-known;
  update-fits = update-fits;
  update-panics = update-panics;
  ascii-is_valid = λ t h. h;
  plus-exact = λ a b x y z. refl;
  of_int-is_negative = λ a. refl;
}
