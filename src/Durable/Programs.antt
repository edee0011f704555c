-- ===== src/Durable/Programs.antt =====
-- The catalog of programs and its quota.
use tysel.Base.{
  ℕ, ◌+◌, ◌-◌, Text, Option, none, some, Bool, true, false, not, leb, ltb, ◌==◌, if◌then◌else◌,
  ◌&&◌, ◌||◌, length, lookup, insert, remove, retain, ok, err, codes, text_eq,
}
use tysel.Durable.{
  Sha256, DurableProgramKind, script, module_kind, DurableProgram, ProgramRow, Tables,
  invalid_program, program_limit, program_byte_limit, program_conflict, program_in_use,
  invalid_program_digest, invalid_program_kind, sqlite, max_durable_programs,
  max_durable_program_bytes, max_durable_program_total_bytes,
}
use tysel.Durable.Tx.{
  Tx, ◌>>=◌, ◌>>◌, return, refuse_if, ok_or, read, write, to_sql_integer, checked_add,
}
use tysel.Durable.History.{ensure_open}
use tysel.Durable.Signals.{is_some, exceeds}

unfoldable pub kind_text : DurableProgramKind → Text
kind_text script = codes "script"
kind_text module_kind = codes "module"

unfoldable pub kind_from : Text → Option DurableProgramKind
unfolding text_eq
kind_from raw =
    if text_eq raw (codes "script")
    then some script
    else if text_eq raw (codes "module")
    then some module_kind
    else none

abbrev pub same_kind : DurableProgramKind → DurableProgramKind → Bool
same_kind script script = true
same_kind module_kind module_kind = true
same_kind _ _ = false

unfoldable pub validate_program_source : Text → Tx (Unit {0})
validate_program_source source =
    refuse_if (length source == 0 || ltb max_durable_program_bytes (length source)) invalid_program

unfoldable pub program_count : Tables → ℕ
program_count t = t.program_stats.active_count

-- `UPDATE durable_program_stats`, whose columns are not negative.
abbrev pub retire_program : ℕ → Tx (Unit {0})
retire_program bytes t =
    if t.program_stats.active_count == 0 || ltb t.program_stats.active_bytes bytes
    then err sqlite
    else ok (
      tt,
      record t {
        program_stats = record {
          active_count = t.program_stats.active_count - 1;
          active_bytes = t.program_stats.active_bytes - bytes;
        };
      },
    )

abbrev pub add_program : ℕ → ProgramRow → Tables → Tables
add_program task row t = record t {
  programs = insert task row t.programs;
  program_stats = record {
    active_count = t.program_stats.active_count + 1;
    active_bytes = t.program_stats.active_bytes + length row.source;
  };
}

abbrev pub has_rows : ℕ → Tables → Bool
has_rows task t =
    ltb 0 (length (retain (λ e. e.task_id == task) t.events))
    || is_some (lookup task t.wakeups)
    || ltb 0 (length (retain (λ s. s.task_id == task) t.inbox))
    || is_some (lookup task t.waits)

module _ (sha : Sha256) where
  unfoldable pub decode_program : ℕ → ProgramRow → Tx DurableProgram
  unfolding validate_program_source
  decode_program task r = do
    validate_program_source r.source
    refuse_if (not (length r.source_sha256 == 32)) invalid_program_digest
    refuse_if (not (text_eq r.source_sha256 (sha.digest r.source))) invalid_program_digest
    kind ← ok_or (kind_from r.program_kind) (invalid_program_kind r.program_kind)
    return (record {
      task_id = task;
      kind = kind;
      source = r.source;
      source_sha256 = r.source_sha256;
      registered_at_ms = r.registered_at_ms;
    })

  abbrev pub decode_found : ℕ → Option ProgramRow → Tx (Option DurableProgram)
  decode_found task none = return none
  decode_found task (some r) = do program ← decode_program task r; return (some program)

  unfoldable pub select_program : ℕ → Tx (Option DurableProgram)
  select_program task = do found ← read (λ t. lookup task t.programs); decode_found task found

  abbrev pub is_same_program : DurableProgramKind → Text → DurableProgram → Bool
  is_same_program kind source p =
      same_kind p.kind kind
      && text_eq p.source_sha256 (sha.digest source)
      && text_eq p.source source

  abbrev pub program_row : DurableProgramKind → Text → ℕ → ProgramRow
  program_row kind source registered = record {
    program_kind = kind_text kind;
    source = source;
    source_sha256 = sha.digest source;
    registered_at_ms = registered;
  }

  abbrev pub put_beside :
      ℕ → DurableProgramKind → Text → ℕ → Option DurableProgram → Tx (Option DurableProgram)
  put_beside task kind source registered (some p) = do
    refuse_if (not (is_same_program kind source p)) (program_conflict task)
    return (some p)
  put_beside task kind source registered none = do
    count ← read (λ t. t.program_stats.active_count)
    refuse_if (leb max_durable_programs count) program_limit
    bytes ← read (λ t. t.program_stats.active_bytes)
    refuse_if (exceeds max_durable_program_total_bytes (checked_add bytes (length source)))
        program_byte_limit
    write (add_program task (program_row kind source registered))
    return none

  unfoldable pub put_program_inner : ℕ → DurableProgramKind → Text → ℕ → Tx (Option DurableProgram)
  unfolding validate_program_source
  put_program_inner task kind source registered_at_ms = do
    validate_program_source source
    registered ← to_sql_integer registered_at_ms (codes "registered_at_ms")
    ensure_open task
    existing ← select_program task
    put_beside task kind source registered existing

  abbrev pub remove_found : ℕ → Option DurableProgram → Tx (Unit {0})
  remove_found task none = return tt
  remove_found task (some p) = do
    in_use ← read (has_rows task)
    refuse_if in_use (program_in_use task)
    retire_program (length p.source)
    write (λ t. record t { programs = remove task t.programs })

  unfoldable pub remove_program : ℕ → Tx (Option DurableProgram)
  remove_program task = do
    ensure_open task
    existing ← select_program task
    remove_found task existing
    return existing
