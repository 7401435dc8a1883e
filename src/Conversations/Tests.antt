-- ===== src/Conversations/Tests.antt =====
-- Runs of the conversations of a client.
use dispatch_web.Base.{
  is_some, nat_eq, string_eq, lookup, text_is_eq, ◌≡◌, refl, inl, true, false, some, [], ◌∷◌, arith,
}
use dispatch_web.Conversations.{Conversation, ClientSession, switch_conversation}
use dispatch_web.Conversations.Leaving.{
  IsSession, IsSwitched, switch_conversation-IsSwitched, switch_conversation-keeps_work,
  switch_conversation-IsSession,
}

abbrev running : Conversation
running = record {
  id = "a";
  cwd = "/w";
  listed = false;
  prompted_since_active = true;
  last_active_at = 1;
  is_streaming = some true;
  live_terminals = 0;
}

abbrev idle : Conversation
idle = record {
  id = "b";
  cwd = "/v";
  listed = true;
  prompted_since_active = false;
  last_active_at = 0;
  is_streaming = some false;
  live_terminals = 0;
}

abbrev two : ClientSession
two = record {
  convs = ("a", running) ∷ ("b", idle) ∷ [];
  active_id = "a";
  cwd = "/w";
  conv_statuses = [];
  conv_todos = [];
  disposed = [];
}

two-IsSession : IsSession two
two-IsSession = record {
  active = (running, refl);
  named = λ j c h. ground (arith, string_eq.beq_iff "a" j, string_eq.beq_iff "b" j);
  running = λ j c h n. ground (arith, string_eq.beq_iff "a" j, string_eq.beq_iff "b" j);
}

switch_conversation-IsSwitched_example :
    IsSwitched 7 "b" running idle two (switch_conversation 7 "b" two)
switch_conversation-IsSwitched_example =
    switch_conversation-IsSwitched 7 "b" two running idle refl refl refl
      (λ q. ground (arith, string_eq.beq_iff "b" "a"))

switch_conversation-keeps_work_example :
    is_some (lookup "a" (switch_conversation 7 "b" two).convs) ≡ true
switch_conversation-keeps_work_example =
    switch_conversation-keeps_work 7 "b" two "a" running two-IsSession refl (inl refl)

test_switch_conversation-IsSession : IsSession (switch_conversation 7 "b" two)
test_switch_conversation-IsSession = switch_conversation-IsSession 7 "b" two two-IsSession
