-- ===== src/PromptHistory.antt =====
-- web/src/prompt-history.ts: the prompts that the arrow keys bring back.
-- `localStorage.setItem` is the parameter `set_item`; what was loaded is an argument.
pub mod Bounds
mod Tests
use dispatch_web.Base.{
  ltb, leb, if◌then◌else◌, length, take, drop, get_last?, nat_eq, string_eq, Text, text_eq,
  text_is_eq, trim, ℕ, zero, suc, ◌+◌, ◌-◌, ◌/◌, Bool, false, ◌&&◌, ◌||◌, Option, none, some, List,
  [], ◌∷◌, ◌++◌,
}
use Prim.Native.Nat.{zero}

pub record PromptHistorySettings : Type 0 where
  pub max_entries : ℕ
  pub char_limit_enabled : Bool
  pub char_limit : ℕ

abbrev pub prompt_history_max : ℕ
prompt_history_max = 100

abbrev pub repeats : List Text → Text → Bool
repeats history t = elim (get_last? history) [ none ↦ false | some last ↦ text_eq last t ]

-- `next.length > max ? next.slice(next.length - max) : next`.
abbrev pub newest : ℕ → List Text → List Text
newest max' next = if ltb max' (length next) then drop (length next - max') next else next

unfoldable pub append_history : List Text → Text → ℕ → List Text
append_history history text max' =
    if text_eq (trim text) []
    then history
    else if repeats history (trim text)
    then history
    else newest max' (history ++ trim text ∷ [])

-- What `localStorage.setItem` answers.
pub data Written : Type 0 where
  accepted : Written
  over_quota : Written
  refused : Written

-- How the loop of `persist` ends: with a stored array, or without.
pub data Outcome : Type 0 where
  stored : List Text → Outcome
  given_up : Outcome

module _ (set_item : List Text → Written) where
  -- The loop, on fuel: none when the fuel is used up.
  unfoldable pub persist_loop : ℕ → List Text → Option Outcome
  persist_loop zero cur = none
  persist_loop (suc fuel) cur =
      let half = persist_loop fuel (drop ((length cur + 1) / 2) cur) in
      elim (set_item cur) [
        | accepted ↦ some (stored cur)
        | refused ↦ some given_up
        | over_quota ↦ if leb (length cur) 1 then some given_up else half
      ]

  unfoldable pub persist : List Text → Option Outcome
  unfolding persist_loop
  persist history = persist_loop (suc (length history)) history

  -- Whether the history was written, and what became of it.
  unfoldable pub push_prompt_history : PromptHistorySettings → List Text → Text → Option Outcome
  push_prompt_history settings cur text =
      let t = trim text in
      let t' : Text =
        if settings.char_limit_enabled && ltb settings.char_limit (length t)
        then take settings.char_limit t
        else t in
      if text_eq t [] || text_eq (trim t') [] || repeats cur (trim t')
      then some given_up
      else persist (append_history cur t' settings.max_entries)
