-- ===== src/Queue/Memory.antt =====
-- A Redis in memory and a writing of jobs that meet what the theorems on pkg/queue/queue.go ask of
-- the parameters.
use gateway_a.Prelude.{
  Text, text_eq, codes, Option, none, some, List, [], ◌∷◌, ◌++◌, ◌==◌, message, Result, ok, err,
  ◌≡◌, refl, ap, sym, ◌∙◌, arith, beq_refl, Bool-cases, inl, inr, if◌then◌else◌,
}
use gateway_a.Queue.Client.{Redis, IsLawful, IsReachable}
use gateway_a.Queue.Reachable.{Clean, snoc-ne_nil}

pub record Held : Type 0 where
  pub lists : Text → List Text
  pub strings : Text → Option Text

abbrev updated {ℓ} : {A : Type ℓ} → Text → A → (Text → A) → Text → A
updated k v f j = if j == k then v else f j

-- All but the last element, and the last.
abbrev unsnoc : List Text → Option (List Text × Text)
unsnoc [] = none
unsnoc (x ∷ xs) = elim (unsnoc xs) [ none ↦ some ([], x) | some (l, v) ↦ some (x ∷ l, v) ]

abbrev popped : Held → Text → Option (List Text × Text) → Held × Result Text
popped s k none = (s, err (message (codes "redis: nil")))
popped s k (some (l, v)) = (record s { lists = updated k l s.lists }, ok v)

abbrev found : Option Text → Result Text
found none = err (message (codes "redis: nil"))
found (some v) = ok v

abbrev pub memory : Redis
memory = record {
  State = Held;
  rpush = λ s k v. (record s { lists = updated k (s.lists k ++ v ∷ []) s.lists }, none);
  brpop = λ s k. popped s k (unsnoc (s.lists k));
  get = λ s k. found (s.strings k);
  set = λ s k v ttl. (record s { strings = updated k (some v) s.strings }, none);
  del = λ s k. (record s { strings = updated k none s.strings }, none);
  publish = λ s channel message. (s, none);
}

abbrev pub empty : Held
empty = record { lists = λ k. []; strings = λ k. none }

unsnoc-append : (xs : List Text) (x : Text) → unsnoc (xs ++ x ∷ []) ≡ some (xs, x)
unsnoc-append [] x = refl
unsnoc-append (y ∷ xs) x = rw (unsnoc-append xs x) refl

-- What `unsnoc` says of a list.
abbrev Splits : List Text → Option (List Text × Text) → Type 0
Splits xs none = xs ≡ []
Splits xs (some (l, v)) = xs ≡ l ++ v ∷ []

Splits-more :
    (x : Text) (xs : List Text) (o : Option (List Text × Text))
    → Splits xs o
    → Splits (x ∷ xs) (elim o [ none ↦ some ([], x) | some (l, v) ↦ some (x ∷ l, v) ])
Splits-more x xs none h = ap (λ t. x ∷ t) h
Splits-more x xs (some (l, v)) h = ap (λ t. x ∷ t) h

unsnoc-Splits : (xs : List Text) → Splits xs (unsnoc xs)
unsnoc-Splits [] = refl
unsnoc-Splits (x ∷ xs) = Splits-more x xs (unsnoc xs) (unsnoc-Splits xs)

popped-ok :
    (s : Held) (k v : Text) (o : Option (List Text × Text))
    → Splits (s.lists k) o
    → (popped s k o).1 ≡ ok v
    → s.lists k ≡ (popped s k o).0.lists k ++ v ∷ []
popped-ok s k v none h e = ground (arith, e)
popped-ok s k v (some (l, x)) h e =
    h
    ∙ ap (λ t. l ++ t ∷ []) (ground (arith, e))
    ∙ sym (ap (λ b. (if b then l else s.lists k) ++ v ∷ []) (beq_refl k))

popped-nil :
    (s : Held) (k j : Text) (o : Option (List Text × Text))
    → Splits (s.lists k) o
    → s.lists j ≡ []
    → (popped s k o).0.lists j ≡ []
popped-nil s k j none h e = e
popped-nil s k j (some (l, x)) h e = elim (Bool-cases (j == k)) [
  | inl same ↦
      absurd (snoc-ne_nil l x (sym h ∙ ap s.lists (sym ((text_eq.beq_iff j k).0 same)) ∙ e))
  | inr other ↦ ap (λ b. if b then l else s.lists j) other ∙ e
]

popped-string :
    (s : Held) (k j : Text) (o : Option (List Text × Text))
    → (popped s k o).0.strings j ≡ s.strings j
popped-string s k j none = refl
popped-string s k j (some (l, x)) = refl

found-ok : (o : Option Text) (v : Text) → found o ≡ ok v → o ≡ some v
found-ok none v h = ground (arith, h)
found-ok (some x) v h = ground (arith, h)

deleted-some :
    (s : Held) (k j x : Text) → updated k none s.strings j ≡ some x → s.strings j ≡ some x
deleted-some s k j x h = ground (arith, h)

pub memory-IsLawful : IsLawful memory
memory-IsLawful = record {
  list_of = λ s k. s.lists k;
  string_of = λ s k. s.strings k;
  rpush-list = λ s k v j h. refl;
  rpush-other = λ s k v j h. ap (λ b. if b then s.lists k ++ v ∷ [] else s.lists j) h;
  rpush-string = λ s k v j x h. h;
  brpop-ok = λ s k v h. popped-ok s k v _ (unsnoc-Splits (s.lists k)) h;
  brpop-nil = λ s k j h. popped-nil s k j _ (unsnoc-Splits (s.lists k)) h;
  brpop-string = λ s k j x h. sym (popped-string s k j (unsnoc (s.lists k))) ∙ h;
  get-ok = λ s k v h. found-ok (s.strings k) v h;
  set-list = λ s k v j ttl. refl;
  del-list = λ s k j. refl;
  del-string = deleted-some;
  publish-list = λ s channel message j. refl;
  publish-string = λ s channel message j x h. h;
}

pub memory-IsReachable : IsReachable memory memory-IsLawful
unfolding memory-IsLawful
memory-IsReachable = record {
  pushes = λ s k v. refl;
  pops = λ s k v l h. (v, ap (λ u. (popped s k u).1) (ap unsnoc h ∙ unsnoc-append l v));
}

pub empty-Clean : Clean memory memory-IsLawful empty
unfolding memory-IsLawful
empty-Clean = record { no_job_entry = λ j x e. ground (arith, e); other_lists = λ k n. refl }
