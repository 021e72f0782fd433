-- ===== src/Audit/FileStore.antt =====
-- FileAuditStore of middleware/audit/audit.go: the buffered channel, the goroutine `writeLoop` and
-- the file, as a step relation. `select` chooses among the cases that are ready, so each ready case
-- is a step. The file system and the JSON encoder are not part of the repository: a step says how
-- a write ended. A file is the list of the batches that were appended to it.
pub mod Delivery
use gateway_a.Prelude.{
  ℕ, ◌≤◌, ◌<◌, leb, length, Bool, true, false, List, [], ◌∷◌, ◌++◌, if◌then◌else◌, ◌≡◌,
}
use gateway_a.Audit.{AuditEvent}

-- Where the function `write` may stop.
pub data WriteResult : Type 0 where
  marshal_failed open_failed write_failed written : WriteResult

pub record FileAuditStore (V : Type 0) : Type 0 where
  -- f.buffer: what is sent and not yet received, oldest first
  pub channel : List (AuditEvent V)
  pub capacity : ℕ
  -- the variable `buffer` of writeLoop
  pub pending : List (AuditEvent V)
  pub file : List (List (AuditEvent V))
  -- f.done is closed; f.buffer is closed; writeLoop has not returned
  pub done : Bool
  pub channel_closed : Bool
  pub running : Bool

module _ {V : Type 0} where
  abbrev pub new_file_store : ℕ → FileAuditStore V
  new_file_store size = record {
    channel = [];
    capacity = size;
    pending = [];
    file = [];
    done = false;
    channel_closed = false;
    running = true;
  }

  abbrev write_nonempty : WriteResult → FileAuditStore V → FileAuditStore V
  write_nonempty marshal_failed s = s
  write_nonempty open_failed s = s
  write_nonempty write_failed s = record s { pending = [] }
  write_nonempty written s = record s { pending = []; file = s.file ++ s.pending ∷ [] }

  -- The function `write` inside writeLoop.
  unfoldable pub write : WriteResult → FileAuditStore V → FileAuditStore V
  write r s = elim s.pending [ [] ↦ s | _ ∷ _ ↦ write_nonempty r s ]

  -- The receiving case: append, and write once the buffer has the channel's capacity.
  unfoldable pub receive :
      WriteResult → AuditEvent V → List (AuditEvent V) → FileAuditStore V → FileAuditStore V
  unfolding write
  receive r event rest s =
      let taken = record s { channel = rest; pending = s.pending ++ event ∷ [] } in
      if leb s.capacity (length taken.pending) then write r taken else taken

  -- The case of `<-f.done`: a last write, then close(f.buffer) and return.
  unfoldable pub stop : WriteResult → FileAuditStore V → FileAuditStore V
  unfolding write
  stop r s = record (write r s) { channel_closed = true; running = false }

-- What a step did: Save accepted an event, or the store worked, ending a write in this way, or both.
pub data Label (V : Type 0) : Type 0 where
  saved : AuditEvent V → Label V
  worked : WriteResult → Label V
  handed : AuditEvent V → WriteResult → Label V

pub data Step {V : Type 0} (s : FileAuditStore V) : Label V → FileAuditStore V → Type 0 where
  -- Save, with room in the channel; a send on a closed channel would panic
  save :
      (event : AuditEvent V)
      → length s.channel < s.capacity
      → s.channel_closed ≡ false
      → Step s (saved event) (record s { channel = s.channel ++ event ∷ [] })
  -- Save on a channel with no buffer, while writeLoop waits for it: the writer has the event at once
  hand_over :
      (event : AuditEvent V) (r : WriteResult)
      → s.capacity ≡ 0
      → s.channel ≡ []
      → s.running ≡ true
      → s.channel_closed ≡ false
      → Step s (handed event r) (receive r event [] s)
  tick : (r : WriteResult) → s.running ≡ true → Step s (worked r) (write r s)
  take_event :
      (r : WriteResult) {event : AuditEvent V} {rest : List (AuditEvent V)}
      → s.running ≡ true
      → s.channel ≡ event ∷ rest
      → Step s (worked r) (receive r event rest s)
  finish : (r : WriteResult) → s.running ≡ true → s.done ≡ true → Step s (worked r) (stop r s)
  -- Close
  close : s.done ≡ false → Step s (worked written) (record s { done = true })

pub data Trace {V : Type 0} (s : FileAuditStore V)
    : List (Label V) → FileAuditStore V → Type 0 where
  start : Trace s [] s
  step :
      {t u : FileAuditStore V} {ls : List (Label V)} {l : Label V}
      → Trace s ls t
      → Step t l u
      → Trace s (ls ++ l ∷ []) u
