-- ===== src/Queue/Written.antt =====
-- A writing of jobs that reads back what it writes, as the theorems on pkg/queue/queue.go ask.
use gateway_a.Prelude.{
  ℕ, zero, suc, ℤ, pos, negsuc, Text, codes, Option, none, some, [], ◌∷◌, ◌++◌, message, Result, ok,
  err, ◌≡◌, refl, ap, sym, ◌∙◌, length, arith,
}
use gateway_a.Queue.{Job, Codec}

-- A value in front of a text, and its reading.
record Writing (A : Type 0) : Type 0 where
  encode : A → Text → Text
  decode : Text → Option (A × Text)
  reads : (a : A) (rest : Text) → decode (encode a rest) ≡ some (a, rest)

abbrev number_read : Text → Option (ℕ × Text)
number_read [] = none
number_read (n ∷ rest) = some (n, rest)

abbrev number : Writing ℕ
number = record { encode = λ n rest. n ∷ rest; decode = number_read; reads = λ n rest. refl }

module _ {A B : Type 0} (V : Writing A) (W : Writing B) where
  abbrev both_then : A → Option (B × Text) → Option ((A × B) × Text)
  both_then a none = none
  both_then a (some (b, rest)) = some ((a, b), rest)

  abbrev both_read : Option (A × Text) → Option ((A × B) × Text)
  both_read none = none
  both_read (some (a, rest)) = both_then a (W.decode rest)

  both : Writing (A × B)
  both = record {
    encode = λ p rest. V.encode p.0 (W.encode p.1 rest);
    decode = λ t. both_read (V.decode t);
    reads = λ p rest.
        ap both_read (V.reads p.0 (W.encode p.1 rest)) ∙ ap (both_then p.0) (W.reads p.1 rest);
  }

module _ {A B : Type 0} (W : Writing A) (f : A → B) (g : B → A) (e : (b : B) → f (g b) ≡ b) where
  abbrev through_read : Option (A × Text) → Option (B × Text)
  through_read none = none
  through_read (some (a, rest)) = some (f a, rest)

  through : Writing B
  through = record {
    encode = λ b rest. W.encode (g b) rest;
    decode = λ t. through_read (W.decode t);
    reads = λ b rest. ap through_read (W.reads (g b) rest) ∙ ap (λ x. some (x, rest)) (e b);
  }

-- A list is its length and its elements.
abbrev split : ℕ → Text → Option (Text × Text)
split zero t = some ([], t)
split (suc n) [] = none
split (suc n) (c ∷ t) = elim (split n t) [ none ↦ none | some (l, rest) ↦ some (c ∷ l, rest) ]

split-append : (l rest : Text) → split (length l) (l ++ rest) ≡ some (l, rest)
split-append [] rest = refl
split-append (c ∷ l) rest = rw (split-append l rest) refl

abbrev text_read : Text → Option (Text × Text)
text_read [] = none
text_read (n ∷ rest) = split n rest

abbrev text : Writing Text
text = record {
  encode = λ t rest. length t ∷ (t ++ rest);
  decode = text_read;
  reads = split-append;
}

abbrev integer_of : ℕ × ℕ → ℤ
integer_of (zero, n) = pos n
integer_of (suc s, n) = negsuc n

abbrev integer_parts : ℤ → ℕ × ℕ
integer_parts (pos n) = (0, n)
integer_parts (negsuc n) = (1, n)

integer_of-integer_parts : (z : ℤ) → integer_of (integer_parts z) ≡ z
integer_of-integer_parts (pos n) = refl
integer_of-integer_parts (negsuc n) = refl

integer : Writing ℤ
integer = through (both number number) integer_of integer_parts integer_of-integer_parts

abbrev time_of : ℕ × ℤ → Option ℤ
time_of (zero, z) = none
time_of (suc s, z) = some z

abbrev time_parts : Option ℤ → ℕ × ℤ
time_parts none = (0, pos 0)
time_parts (some z) = (1, z)

time_of-time_parts : (o : Option ℤ) → time_of (time_parts o) ≡ o
time_of-time_parts none = refl
time_of-time_parts (some z) = refl

time : Writing (Option ℤ)
time = through (both number integer) time_of time_parts time_of-time_parts

-- The fields of a job whose payload and metadata are texts.
abbrev Names : Type 0
Names = Text × (Text × (Text × (Text × (Text × (Text × Text)))))

abbrev Times : Type 0
Times = ℤ × (Option ℤ × (Option ℤ × Option ℤ))

abbrev Counts : Type 0
Counts = ℤ × (ℤ × ℤ)

fields : Writing (Names × (Counts × Times))
fields =
    let names = both text (both text (both text (both text (both text (both text text))))) in
    let counts = both integer (both integer integer) in
    both names (both counts (both integer (both time (both time time))))

abbrev job_of : Names × (Counts × Times) → Job Text
job_of
      (
        (id, (kind, (payload, (status, (queue, (error, metadata)))))),
        ((retries, (max_retries, timeout)), (created_at, (expires_at, (started_at, finished_at)))),
      ) =
    record {
      id = id;
      kind = kind;
      payload = payload;
      status = status;
      retries = retries;
      max_retries = max_retries;
      timeout = timeout;
      expires_at = expires_at;
      queue = queue;
      created_at = created_at;
      started_at = started_at;
      finished_at = finished_at;
      error = error;
      metadata = metadata;
    }

abbrev fields_of : Job Text → Names × (Counts × Times)
fields_of j = (
  (j.id, (j.kind, (j.payload, (j.status, (j.queue, (j.error, j.metadata)))))),
  (
    (j.retries, (j.max_retries, j.timeout)),
    (j.created_at, (j.expires_at, (j.started_at, j.finished_at))),
  ),
)

job : Writing (Job Text)
job = through fields job_of fields_of (λ j. refl)

abbrev read_result : Option (Job Text × Text) → Result (Job Text)
read_result none = err (message (codes "unexpected end of JSON input"))
read_result (some (j, rest)) = ok j

pub sample_codec : Codec Text
sample_codec = record {
  marshal = λ j. ok (job.encode j []);
  unmarshal = λ bytes. read_result (job.decode bytes);
}

-- What `sample_codec` makes of a job.
pub bytes_of : Job Text → Text
bytes_of j = job.encode j []

pub sample_codec-bytes_of : (j : Job Text) → sample_codec.marshal j ≡ ok (bytes_of j)
unfolding sample_codec bytes_of
sample_codec-bytes_of j = refl

ok-injective : {A : Type 0} (a b : A) → ok a ≡ ok b → a ≡ b
ok-injective a b h = ground (arith, h)

pub sample_codec-read :
    (j : Job Text) (bytes : Text)
    → sample_codec.marshal j ≡ ok bytes
    → sample_codec.unmarshal bytes ≡ ok j
unfolding sample_codec
sample_codec-read j bytes h =
    ap (λ t. read_result (job.decode t)) (sym (ok-injective (job.encode j []) bytes h))
    ∙ ap read_result (job.reads j [])
