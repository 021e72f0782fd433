-- ===== src/Queue/Client.antt =====
-- The calls that pkg/queue/queue.go makes of its Redis client (github.com/redis/go-redis), which is
-- not part of the repository, over an unknown state. A call reports an error as go-redis does; the
-- laws are those that Redis documents for the commands, on the lists and strings that it holds.
use gateway_a.Prelude.{
  Text, false, Option, none, some, List, [], ◌∷◌, ◌++◌, if◌then◌else◌, ◌==◌, text_eq, ℤ, Error,
  Result, ok, ◌≡◌,
}

pub record Redis : Type 1 where
  pub State : Type 0
  pub rpush : State → Text → Text → State × Option Error
  -- the element, on success
  pub brpop : State → Text → State × Result Text
  pub get : State → Text → Result Text
  -- the last argument is the expiry in nanoseconds, 0 for none
  pub set : State → Text → Text → ℤ → State × Option Error
  pub del : State → Text → State × Option Error
  -- the channel and the message
  pub publish : State → Text → Text → State × Option Error

-- What Redis holds, and how the commands change it. Strings may vanish at any time, by expiry.
pub record IsLawful (R : Redis) : Type 0 where
  pub list_of : R.State → Text → List Text
  pub string_of : R.State → Text → Option Text
  pub rpush-list :
      (s : R.State) (k v j : Text)
      → (R.rpush s k v).1 ≡ none
      → list_of (R.rpush s k v).0 j ≡ (if j == k then list_of s k ++ v ∷ [] else list_of s j)
  -- a failed push may have reached the server or not
  pub rpush-other :
      (s : R.State) (k v j : Text) → (j == k) ≡ false → list_of (R.rpush s k v).0 j ≡ list_of s j
  pub rpush-string :
      (s : R.State) (k v j x : Text)
      → string_of (R.rpush s k v).0 j ≡ some x
      → string_of s j ≡ some x
  pub brpop-ok :
      (s : R.State) (k v : Text)
      → (R.brpop s k).1 ≡ ok v
      → list_of s k ≡ list_of (R.brpop s k).0 k ++ v ∷ []
  pub brpop-nil : (s : R.State) (k j : Text) → list_of s j ≡ [] → list_of (R.brpop s k).0 j ≡ []
  pub brpop-string :
      (s : R.State) (k j x : Text) → string_of (R.brpop s k).0 j ≡ some x → string_of s j ≡ some x
  pub get-ok : (s : R.State) (k v : Text) → R.get s k ≡ ok v → string_of s k ≡ some v
  pub set-list :
      (s : R.State) (k v j : Text) (ttl : ℤ) → list_of (R.set s k v ttl).0 j ≡ list_of s j
  pub del-list : (s : R.State) (k j : Text) → list_of (R.del s k).0 j ≡ list_of s j
  pub del-string :
      (s : R.State) (k j x : Text) → string_of (R.del s k).0 j ≡ some x → string_of s j ≡ some x
  pub publish-list :
      (s : R.State) (channel message j : Text)
      → list_of (R.publish s channel message).0 j ≡ list_of s j
  pub publish-string :
      (s : R.State) (channel message j x : Text)
      → string_of (R.publish s channel message).0 j ≡ some x
      → string_of s j ≡ some x

-- A Redis that can be reached: a push succeeds, and a pop of a list that is not empty too.
pub record IsReachable (R : Redis) (L : IsLawful R) : Type 0 where
  pub pushes : (s : R.State) (k v : Text) → (R.rpush s k v).1 ≡ none
  pub pops :
      (s : R.State) (k v : Text) (l : List Text)
      → L.list_of s k ≡ l ++ v ∷ []
      → (x : Text) × ((R.brpop s k).1 ≡ ok x)
