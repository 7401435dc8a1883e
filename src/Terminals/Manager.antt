-- ===== src/Terminals/Manager.antt =====
-- server/terminals.ts: `TerminalManager`. The directory that `safeCwd` accepts and whether node-pty
-- could start a shell are arguments of the calls; the keys of both maps are terminal ids.
use dispatch_web.Base.{
  ltb, leb, ◌==◌, if◌then◌else◌, is_some, length, all, nat_eq, string_eq, lookup, insert, remove,
  Text, codes, text_eq, text_is_eq, ℕ, suc, ◌+◌, max, Bool, true, false, not, ◌&&◌, ◌||◌, Option,
  none, some, List, [], ◌∷◌, ◌++◌,
}
use dispatch_web.Terminals.{
  max_terminals, max_id, TermEntry, TerminalInfo, ServerMessage, terminal_output, terminal_list,
  failed, info, append_output, flush_pending,
}

pub record Manager : Type 0 where
  pub terms : List (Text × TermEntry)
  pub history : List (Text × TermEntry)
  pub seq : ℕ
  pub serials : ℕ

pub record CommandDef : Type 0 where
  pub name : Text
  -- The command with `${pwd}` and `~` expanded.
  pub command : Text

-- What the outside answers when a shell is to start.
pub record Spawning : Type 0 where
  -- `safeCwd`: the directory inside the workspace.
  pub dir : Option Text
  -- The directory exists and node-pty started the shell; if not, the text of the failure.
  pub failure : Option Text

abbrev pub is_id_char : ℕ → Bool
is_id_char c =
    (leb b'A' c && leb c b'Z')
    || (leb b'a' c && leb c b'z')
    || (leb b'0' c && leb c b'9')
    || c == b'.'
    || c == b'_'
    || c == b':'
    || c == b'-'

unfoldable pub valid_id : Text → Bool
valid_id id = not (text_eq id []) && leb (length id) max_id && all is_id_char id

-- The live terminals that count against the limit.
unfoldable pub live_user : List (Text × TermEntry) → ℕ
live_user [] = 0
live_user ((id, e) ∷ m) = if e.agent_bash then live_user m else suc (live_user m)

unfoldable pub count_live : List (Text × TermEntry) → ℕ
count_live [] = 0
count_live ((id, e) ∷ m) = if e.exited then count_live m else suc (count_live m)

unfoldable pub infos : List (Text × TermEntry) → List TerminalInfo
infos [] = []
infos ((id, e) ∷ m) = info e ∷ infos m

unfoldable pub list : Manager → List TerminalInfo
list m = infos m.terms ++ infos m.history

unfoldable pub find_entry : Text → Manager → Option TermEntry
find_entry id m = elim (lookup id m.terms) [ some e ↦ some e | none ↦ lookup id m.history ]

unfoldable pub ensure_spawn_allowed : Text → Bool → Manager → Bool
ensure_spawn_allowed id agent_bash m =
    if is_some (lookup id m.terms)
    then true
    else if agent_bash
    then true
    else ltb (live_user m.terms) max_terminals

abbrev pub limit_message : Text
limit_message = codes "Terminal limit reached (16)"

abbrev pub cwd_message : Text
cwd_message = codes "Terminal cwd must be inside the current workspace"

abbrev pub id_message : Text
id_message = codes "Invalid terminal name: use letters, digits, .-_ or : (max 80 chars)"

-- `Math.max(2, Math.floor(n) || d)`.
abbrev pub dimension : ℕ → ℕ → ℕ
dimension n d = max 2 (if n == 0 then d else n)

abbrev pub fresh_entry :
    (id dir title : Text) (cols rows serial : ℕ) (command : Option Text) (agent_bash : Bool)
    → TermEntry
fresh_entry id dir title cols rows serial command agent_bash = record {
  id = id;
  serial = serial;
  title = title;
  cwd = dir;
  cols = dimension cols 80;
  rows = dimension rows 24;
  exited = false;
  exit_code = none;
  command = command;
  output = [];
  output_offset = 0;
  pending_out = [];
  flush_timer = false;
  agent_bash = agent_bash;
}

-- `spawnShell`, for a directory that `safeCwd` has accepted.
unfoldable pub spawn_shell :
    (id dir title : Text) (cols rows : ℕ) (command : Option Text) (agent_bash : Bool)
    → Option Text
    → Manager
    → Manager × Option ServerMessage
spawn_shell id dir title cols rows command agent_bash (some text) m = (m, some (failed id text))
spawn_shell id dir title cols rows command agent_bash none m = (
  record m {
    terms = insert id (fresh_entry id dir title cols rows m.serials command agent_bash) m.terms;
    serials = m.serials + 1;
  },
  none,
)

-- The title, and the sequence number after it has been chosen. `numbered` writes a number into the
-- default title.
abbrev pub chosen_title : Text → ℕ → (ℕ → Text) → Text × ℕ
chosen_title title seq numbered =
    if text_eq title [] then (numbered (seq + 1), seq + 1) else (title, seq)

unfoldable pub create_new :
    (id title : Text) (numbered : ℕ → Text) (cols rows : ℕ) (agent_bash : Bool)
    → Spawning
    → Manager
    → Manager × List ServerMessage
create_new id title numbered cols rows agent_bash s m =
    let m' = record m { history = remove id m.history } in
    elim s.dir [
      | none ↦ (m', failed id cwd_message ∷ [])
      | some dir ↦
          let named = chosen_title title m'.seq numbered in
          let (m'', r) =
            spawn_shell id dir named.0 cols rows none agent_bash s.failure
              (record m' { seq = named.1 }) in
          elim r [
            | some failure ↦ (m'', failure ∷ [])
            | none ↦ (m'', terminal_list (list m'') ∷ [])
          ]
    ]

unfoldable pub create :
    (id title : Text) (numbered : ℕ → Text) (cols rows : ℕ) (agent_bash : Bool)
    → Spawning
    → Manager
    → Manager × List ServerMessage
create id title numbered cols rows agent_bash s m =
    if not (valid_id id)
    then (m, failed id id_message ∷ [])
    else if is_some (lookup id m.terms)
    then (m, [])
    else if not (ensure_spawn_allowed id agent_bash m)
    then (m, failed id limit_message ∷ [])
    else create_new id title numbered cols rows agent_bash s m

-- A restart kills the running shell and keeps its size. The banner that the new shell's output
-- begins with is an argument.
unfoldable pub restart :
    (id : Text) (def' : CommandDef) (numbered : ℕ → Text) (banner : Text) (cols rows : ℕ)
    → Spawning
    → Option TermEntry
    → Manager
    → Manager × List ServerMessage
restart id def' numbered banner cols rows s existing m =
    let named =
      chosen_title (if text_eq def'.name [] then def'.command else def'.name) m.seq numbered in
    let m1 = record m { seq = named.1 } in
    elim s.dir [
      | none ↦ (m1, failed id cwd_message ∷ [])
      | some dir ↦
          let flushed : List ServerMessage = elim existing [
            | none ↦ []
            | some e ↦ if e.exited then [] else (flush_pending e).1
          ] in
          let cols' : ℕ = elim existing [ none ↦ cols | some e ↦ e.cols ] in
          let rows' : ℕ = elim existing [ none ↦ rows | some e ↦ e.rows ] in
          let m2 = record m1 { terms = remove id m1.terms; history = remove id m1.history } in
          let (m3, r) =
            spawn_shell id dir named.0 cols' rows' (some def'.command) false s.failure m2 in
          elim r [
            | some failure ↦ (m3, flushed ++ failure ∷ [])
            | none ↦
                let fresh =
                  fresh_entry id dir named.0 cols' rows' m2.serials (some def'.command) false in
                (
                  record m3 { terms = insert id (append_output fresh banner) m3.terms },
                  flushed ++ (terminal_list (list m3) ∷ terminal_output id banner ∷ []),
                )
          ]
    ]

unfoldable pub run_command :
    (id : Text) (def' : CommandDef) (numbered : ℕ → Text) (banner : Text) (cols rows : ℕ)
    → Spawning
    → Manager
    → Manager × List ServerMessage
run_command id def' numbered banner cols rows s m =
    if not (valid_id id)
    then (m, failed id id_message ∷ [])
    else if not (is_some (lookup id m.terms)) && not (ensure_spawn_allowed id false m)
    then (m, failed id limit_message ∷ [])
    else restart id def' numbered banner cols rows s (lookup id m.terms) m
