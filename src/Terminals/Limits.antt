-- ===== src/Terminals/Limits.antt =====
-- Limits and the split between live terminals and history.
use dispatch_web.Base.{
  if◌then◌else◌, length, All, nat_eq, string_eq, has, Distinct, lookup, insert, remove, keys,
  has-keys, length-insert, length-remove, has-keys-remove, remove-Distinct, has-keys-insert,
  insert-Distinct, All-insert, All-remove, Text, text_eq_iff, text_is_eq, ◌+◌, ◌≤◌, ◌≡◌, refl, true,
  false, some, List, [], ◌∷◌, arith, length-insert-known,
}
use dispatch_web.Terminals.{max_terminals, max_terminal_history, TermEntry}
use dispatch_web.Terminals.Manager.{Manager, live_user}
use dispatch_web.Terminals.Events.{make_room}

abbrev pub IsLive : Text × TermEntry → Type 0
IsLive x = (x.1.exited ≡ false) × (x.1.id ≡ x.0)

-- What holds of the maps of every manager: live terminals have not exited and stand under their
-- id, each map has an id once, no id is in both, the history is bounded, and at most 16 live
-- terminals are the user's.
pub record IsManaged (terms history : List (Text × TermEntry)) : Type 0 where
  pub live : All IsLive terms
  pub distinct_terms : Distinct (keys terms)
  pub distinct_history : Distinct (keys history)
  pub apart : (id : Text) → has id (keys terms) ≡ true → has id (keys history) ≡ false
  pub history_bound : length history ≤ max_terminal_history
  pub user_bound : live_user terms ≤ max_terminals

abbrev pub IsManager : Manager → Type 0
IsManager m = IsManaged m.terms m.history

pub live_user-insert :
    (id : Text) (e : TermEntry) (m : List (Text × TermEntry))
    → live_user (insert id e m) ≤ live_user m + (if e.agent_bash then 0 else 1)
unfolding live_user
live_user-insert id e [] = ground arith
live_user-insert id e ((j, w) ∷ m) = ground (arith, live_user-insert id e m)

pub live_user-replace :
    (id : Text) (e old : TermEntry) (m : List (Text × TermEntry))
    → lookup id m ≡ some old
    → e.agent_bash ≡ old.agent_bash
    → live_user (insert id e m) ≡ live_user m
unfolding live_user
live_user-replace id e old [] h k = cc
live_user-replace id e old ((j, w) ∷ m) h k = ground (arith, live_user-replace id e old m)

pub live_user-remove :
    (id : Text) (m : List (Text × TermEntry)) → live_user (remove id m) ≤ live_user m
unfolding live_user
live_user-remove id [] = omega arith
live_user-remove id ((j, w) ∷ m) = ground (arith, live_user-remove id m)

make_room-bound : (m : List (Text × TermEntry)) → length (make_room m) + 1 ≤ max_terminal_history
unfolding make_room
make_room-bound [] = omega arith
make_room-bound (x ∷ m) = ground (arith, make_room-bound m)

make_room-Distinct :
    (m : List (Text × TermEntry)) → Distinct (keys m) → Distinct (keys (make_room m))
unfolding make_room
make_room-Distinct [] d = tt
make_room-Distinct (x ∷ m) d = ground (arith, make_room-Distinct m d.1)

has-make_room :
    (id : Text) (m : List (Text × TermEntry))
    → has id (keys m) ≡ false
    → has id (keys (make_room m)) ≡ false
unfolding make_room
has-make_room id [] h = refl
has-make_room id (x ∷ m) h = ground (arith, has-make_room id m)

module _ {terms history : List (Text × TermEntry)} (v : IsManaged terms history) (id : Text) where
  pub forget_history : IsManaged terms (remove id history)
  forget_history = record {
    live = v.live;
    distinct_terms = v.distinct_terms;
    distinct_history = remove-Distinct id history v.distinct_history;
    apart = λ j h. ground (arith, has-keys-remove id j history, v.apart j h);
    history_bound = omega (arith, length-remove id history, v.history_bound);
    user_bound = v.user_bound;
  }

  pub forget_live : IsManaged (remove id terms) history
  forget_live = record {
    live = All-remove IsLive id terms v.live;
    distinct_terms = remove-Distinct id terms v.distinct_terms;
    distinct_history = v.distinct_history;
    apart = λ j h. v.apart j (ground (arith, has-keys-remove id j terms));
    history_bound = v.history_bound;
    user_bound = omega (arith, live_user-remove id terms, v.user_bound);
  }

  pub put_live :
      (e : TermEntry)
      → IsLive (id, e)
      → live_user (insert id e terms) ≤ max_terminals
      → has id (keys history) ≡ false
      → IsManaged (insert id e terms) history
  put_live e l b h = record {
    live = All-insert IsLive id e terms v.live l;
    distinct_terms = insert-Distinct id e terms v.distinct_terms;
    distinct_history = v.distinct_history;
    apart = λ j k. ground (arith, has-keys-insert id j e terms, v.apart j, text_eq_iff id j);
    history_bound = v.history_bound;
    user_bound = b;
  }

  pub replace_live :
      (e old : TermEntry)
      → lookup id terms ≡ some old
      → IsLive (id, e)
      → e.agent_bash ≡ old.agent_bash
      → IsManaged (insert id e terms) history
  replace_live e old h l k =
      put_live e l (rw (live_user-replace id e old terms h k) v.user_bound)
        (v.apart id (rw (has-keys id terms, h) refl))

  -- An exited terminal moves to the history.
  pub retire :
      (e : TermEntry)
      → has id (keys terms) ≡ true
      → IsManaged (remove id terms) (insert id e (make_room history))
  retire e h = record {
    live = All-remove IsLive id terms v.live;
    distinct_terms = remove-Distinct id terms v.distinct_terms;
    distinct_history =
        insert-Distinct id e (make_room history) (make_room-Distinct history v.distinct_history);
    apart = λ j k. ground (
      arith,
      has-keys-remove id j terms,
      has-keys-insert id j e (make_room history),
      has-make_room j history,
      v.apart j,
      text_eq_iff id j,
    );
    history_bound = omega (arith, length-insert id e (make_room history), make_room-bound history);
    user_bound = omega (arith, live_user-remove id terms, v.user_bound);
  }

  pub replace_history :
      (e old : TermEntry) → lookup id history ≡ some old → IsManaged terms (insert id e history)
  replace_history e old h = record {
    live = v.live;
    distinct_terms = v.distinct_terms;
    distinct_history = insert-Distinct id e history v.distinct_history;
    apart = λ j k. ground (
      arith,
      has-keys-insert id j e history,
      has-keys id history,
      v.apart j k,
      text_eq_iff id j,
      h,
    );
    history_bound =
        ground (arith, length-insert-known id e history, has-keys id history, h, v.history_bound);
    user_bound = v.user_bound;
  }

pub empty-IsManaged : IsManaged [] []
unfolding live_user
empty-IsManaged = record {
  live = tt;
  distinct_terms = tt;
  distinct_history = tt;
  apart = λ j h. refl;
  history_bound = omega arith;
  user_bound = omega arith;
}
