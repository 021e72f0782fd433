-- ===== src/Queue/Channels.antt =====
-- pkg/queue/queue.go: the dead-letter list.
use gateway_a.Prelude.{Text, text_eq, codes, Option, Error, Result, ok, err, some, ◌++◌, ◌≡◌, refl}
use gateway_a.Queue.Client.{Redis, IsLawful}
use gateway_a.Queue.{Job, Codec, queue_key}

module _ (R : Redis) {P : Type 0} (C : Codec P) where
  abbrev push_letter : Text → Result Text → R.State → R.State × Option Error
  push_letter key (ok bytes) s = R.rpush s key bytes
  push_letter key (err e) s = (s, some e)

  unfoldable pub move_to_dlq : Job P → R.State → R.State × Option Error
  move_to_dlq job s = push_letter (codes "dlq:" ++ job.queue) (C.marshal job) s

  module _ (L : IsLawful R) where
    push_letter-queue :
        (name queue : Text) (r : Result Text) (s : R.State)
        → L.list_of (push_letter (codes "dlq:" ++ queue) r s).0 (queue_key name)
          ≡ L.list_of s (queue_key name)
    unfolding queue_key
    push_letter-queue name queue (ok bytes) s =
        L.rpush-other s (codes "dlq:" ++ queue) bytes (codes "queue:" ++ name) refl
    push_letter-queue name queue (err e) s = refl

    -- A dead letter is never in the list of a queue.
    pub move_to_dlq-queue :
        (job : Job P) (name : Text) (s : R.State)
        → L.list_of (move_to_dlq job s).0 (queue_key name) ≡ L.list_of s (queue_key name)
    unfolding move_to_dlq
    move_to_dlq-queue job name s = push_letter-queue name job.queue (C.marshal job) s
