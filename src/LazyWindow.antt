-- ===== src/LazyWindow.antt =====
-- web/src/lazy-window.ts: which messages are rendered and which are placeholders.
-- Coordinates and heights are natural numbers, in a system where no message starts above 0.
pub mod Planning
pub mod Keeping
pub mod Fingerprint
mod Tests
use dispatch_web.Base.{
  ltb, leb, ◌==◌, if◌then◌else◌, or_else, length, nat_eq, string_eq, has, add, delete, lookup,
  text_is_eq, ℕ, suc, ◌+◌, ◌-◌, String, Bool, not, ◌&&◌, Option, none, some, List, [], ◌∷◌, reverse,
  str_eq,
}

pub record WinRect : Type 0 where
  pub id : String
  pub top : ℕ
  pub bottom : ℕ

pub record Viewport : Type 0 where
  pub top : ℕ
  pub bottom : ℕ

pub record WindowPlan : Type 0 where
  pub show : List String
  pub hide : List String
  pub shrink_above : ℕ

abbrev pub visible : Viewport → WinRect → Bool
visible viewport it = ltb it.top viewport.bottom && ltb viewport.top it.bottom

unfoldable pub plan_window : List WinRect → Viewport → (always hidden : List String) → WindowPlan
plan_window [] viewport always hidden = record { show = []; hide = []; shrink_above = 0 }
plan_window (it ∷ items) viewport always hidden =
    let plan = plan_window items viewport always hidden in
    if has it.id always
    then plan
    else if visible viewport it
    then (if has it.id hidden then record plan { show = it.id ∷ plan.show } else plan)
    else if not (has it.id hidden)
    then record plan {
      hide = it.id ∷ plan.hide;
      shrink_above =
          if leb it.bottom viewport.top
          then (it.bottom - it.top) + plan.shrink_above
          else plan.shrink_above;
    }
    else plan

abbrev pub delete_all : List String → List String → List String
delete_all [] next = next
delete_all (id ∷ ids) next = delete_all ids (delete id next)

abbrev pub add_all : List String → List String → List String
add_all [] next = next
add_all (id ∷ ids) next = add_all ids (add id next)

unfoldable pub apply_plan : List String → WindowPlan → List String
apply_plan prev plan =
    if length plan.show == 0 && length plan.hide == 0
    then prev
    else add_all plan.hide (delete_all plan.show prev)

pub record Message : Type 0 where
  pub id : String
  pub role : String
  pub custom_type : Option String

unfoldable pub estimate_message_height : String → Option String → ℕ
estimate_message_height role custom_type =
    if str_eq role "user"
    then 72
    else if str_eq role "assistant"
    then 280
    else if str_eq role "toolResult"
    then 8
    else if str_eq role "custom"
    then (if str_eq (or_else custom_type "") "file" then 96 else 72)
    else 60

abbrev pub height_of : List (String × ℕ) → Message → ℕ
height_of heights m = or_else (lookup m.id heights) (estimate_message_height m.role m.custom_type)

-- The loop of `pickAlways` after the last message, over the messages from the end.
unfoldable pub pick_from : List Message → List (String × ℕ) → ℕ → ℕ → List String
pick_from [] heights budget acc = []
pick_from (m ∷ older) heights budget acc =
    let rest = pick_from older heights budget (acc + height_of heights m) in
    if leb budget acc then [] else m.id ∷ rest

-- The ids in the order in which the set receives them; a repeated id is added again.
unfoldable pub pick_always : List Message → List (String × ℕ) → ℕ → List String
pick_always msgs heights budget = elim (reverse msgs) [
  | [] ↦ []
  | last ∷ older ↦ last.id ∷ pick_from older heights budget (height_of heights last)
]

pub record HeightEntry : Type 0 where
  pub h : ℕ
  pub len : ℕ

unfoldable pub get_placeholder_height : String → ℕ → List (String × HeightEntry) → ℕ → ℕ
get_placeholder_height id fingerprint cache estimate = elim (lookup id cache) [
  | none ↦ estimate
  | some e ↦ if e.len == fingerprint then e.h else estimate
]

abbrev pub keep_recent : ℕ
keep_recent = 15

abbrev pub collapse_min : ℕ
collapse_min = 30

abbrev pub is_visible_role : String → Bool
is_visible_role role = not (str_eq role "toolResult")

unfoldable pub count_visible : List String → ℕ
count_visible [] = 0
count_visible (role ∷ roles) =
    if is_visible_role role then suc (count_visible roles) else count_visible roles

-- The second loop of `recentStartIndex`, over the roles from the end; the index of a message is the
-- number of messages before it.
unfoldable pub start_from : List String → ℕ → ℕ
start_from [] remaining = 0
start_from (role ∷ older) remaining =
    let skip = start_from older remaining in
    let next = start_from older (remaining - 1) in
    if not (is_visible_role role) then skip else if remaining == 1 then length older else next

unfoldable pub recent_start_index : List String → (keep min' : ℕ) → ℕ
recent_start_index roles keep min' =
    if leb (count_visible roles) min' then 0 else start_from (reverse roles) keep
