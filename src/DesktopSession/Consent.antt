-- ===== src/DesktopSession/Consent.antt =====
-- What a session resolves its prompts with, and how often it starts the workflow.
use sec_app.Base.{
  ℕ, ◌+◌, ◌≤◌, String, Bool, true, false, not, ◌&&◌, Option, none, some, List, [], ◌∷◌, ◌++◌, ◌≡◌,
  ◌⊎◌, refl, sym, subst, ltb, arith, inl, inr, length, length-append, Memᴰ, Bool-cases, if-keeps,
  if◌then◌else◌,
}
use Prim.Native.String
use sec_app.Data.Order.{units}
use sec_app.DesktopSession.{
  State, connecting, ready, submitting, Command, ready_command, prepare_command, cancel_command,
  confirm_command, Call, command, disconnect, write, enter, report, prompt, expire, settle, Session,
  Reply, initial, is_connecting, is_ready, emit, finish_prompt, publish, append, start,
  answer_prompt, take, command_case, is_oversized, disconnect_case, prompt_case, settle_case, call,
  run, is_awaiting, accepted, refused, threw,
}

-- An answer stands in a list with one more: it is the new one or stood there before.
last-Mem : {A : Type 0} (x y : A) (xs : List A) → Memᴰ x (xs ++ y ∷ []) → (x ≡ y) ⊎ Memᴰ x xs
last-Mem x y [] (Memᴰ.head e) = inl e
last-Mem x y [] (Memᴰ.tail m) = elim m [ ]
last-Mem x y (z ∷ zs) (Memᴰ.head e) = inr (Memᴰ.head e)
last-Mem x y (z ∷ zs) (Memᴰ.tail m) = elim (last-Mem x y zs m) [
  | inl e ↦ inl e
  | inr at ↦ inr (Memᴰ.tail at)
]

-- The workflow may still be started.
abbrev unstarted : State → ℕ
unstarted connecting = 1
unstarted ready = 1
unstarted _ = 0

abbrev one : Bool → ℕ
one true = 1
one false = 0

module _ (breaks : ℕ → Bool) (intro : String) (calls : List Call) where
  -- An answer, if it is one, is that of a confirmation among the calls.
  abbrev Said : Option String → Type 0
  Said none = Unit {0}
  Said (some a) = Memᴰ (command (confirm_command a)) calls

  record Sound (m : Session) : Type 0 where
    few : length m.resolved + one m.prompting ≤ m.prompted
    once : m.started + unstarted m.state ≤ 1
    said : (a : Option String) → Memᴰ a m.resolved → Said a

  -- A prompt stays open only while the window is there.
  abbrev Closed : Session → Type 0
  Closed m = (not m.connected && m.prompting) ≡ false

  resolved-Said :
      (xs : List (Option String)) (answer a : Option String)
      → ((b : Option String) → Memᴰ b xs → Said b)
      → Said answer
      → Memᴰ a (xs ++ answer ∷ [])
      → Said a
  resolved-Said xs answer a h k at = elim (last-Mem a answer xs at) [
    | inl e ↦ subst Said (sym e) k
    | inr before ↦ h a before
  ]

  emit-Sound : (m : Session) → Sound m → Sound (emit breaks intro m)
  emit-Sound m h =
      if-keeps Sound m.connected _ m (λ _. record { few = h.few; once = h.once; said = h.said })
        (λ _. h)

  finished-Sound :
      (m : Session) (answer : Option String)
      → m.prompting ≡ true
      → Sound m
      → Said answer
      → (c : Bool) (n : ℕ)
      → Sound (record m {
        prompting = false;
        state = submitting;
        connected = c;
        emitted = n;
        resolved = m.resolved ++ answer ∷ [];
      })
  finished-Sound m answer e h k c n = record {
    few = ground (arith, h.few, length-append m.resolved (answer ∷ []));
    once = omega (arith, h.once);
    said = λ a at. resolved-Said m.resolved answer a h.said k at;
  }

  finish_prompt-Sound :
      (answer : Option String) (m : Session)
      → Sound m
      → Said answer
      → Sound (finish_prompt breaks intro answer m)
  unfolding finish_prompt
  finish_prompt-Sound answer m h k =
      if-keeps Sound m.prompting _ m
        (λ e.
          if-keeps (λ s. Sound (record s { resolved = m.resolved ++ answer ∷ [] })) m.connected _ _
            (λ _. finished-Sound m answer e h k (not (breaks m.emitted)) (m.emitted + 1))
            (λ _. finished-Sound m answer e h k m.connected m.emitted))
        (λ _. h)

  finish_prompt-closes :
      (answer : Option String) (m : Session)
      → (finish_prompt breaks intro answer m).prompting ≡ false
  unfolding finish_prompt
  finish_prompt-closes answer m =
      if-keeps (λ n. Session.prompting n ≡ false) m.prompting _ m
        (λ _. if-keeps (λ s. Session.prompting s ≡ false) m.connected _ _ (λ _. refl) (λ _. refl))
        (λ e. e)

  finish_prompt-Closed :
      (answer : Option String) (m : Session) → Closed (finish_prompt breaks intro answer m)
  finish_prompt-Closed answer m = ground (arith, finish_prompt-closes answer m)

  -- What a call keeps.
  record Kept (m : Session) : Type 0 where
    sound : Sound m
    closed : Closed m

  finish_prompt-Kept :
      (answer : Option String) (m : Session)
      → Sound m
      → Said answer
      → Kept (finish_prompt breaks intro answer m)
  finish_prompt-Kept answer m h k = record {
    sound = finish_prompt-Sound answer m h k;
    closed = finish_prompt-Closed answer m;
  }

  emit-Closed :
      (m : Session)
      → Closed m
      → (m.connected && breaks m.emitted) ≡ false
      → Closed (emit breaks intro m)
  emit-Closed m h e = if-keeps Closed m.connected _ m (λ c. ground arith) (λ _. h)

  publish-Kept : (m : Session) → Sound m → Closed m → Kept (publish breaks intro m)
  unfolding publish
  publish-Kept m h c =
      if-keeps Kept (m.connected && breaks m.emitted) _ _
        (λ _. finish_prompt-Kept none (emit breaks intro m) (emit-Sound m h) tt)
        (λ e. record { sound = emit-Sound m h; closed = emit-Closed m c e })

  append-Kept : (text : String) (m : Session) → Kept m → Kept (append breaks intro text m).1
  unfolding append
  append-Kept text m h =
      elim (Bool-cases (ltb 18000 (length (units m.log) + length (units text)))) [
        | inl e ↦ rw e h
        | inr e ↦ rw e (
            publish-Kept (record m { log = String.◌++◌ m.log text })
              (record { few = h.sound.few; once = h.sound.once; said = h.sound.said }) h.closed)
      ]

  start-Kept : (m : Session) → Kept m → is_ready m.state ≡ true → Kept (start breaks intro m)
  unfolding start
  start-Kept m h e =
      publish-Kept _
        (record { few = h.sound.few; once = ground (arith, h.sound.once); said = h.sound.said })
        h.closed

  -- A reply that keeps the session.
  abbrev KeptReply : Reply × Session → Type 0
  KeptReply r = Kept r.1

  answer_prompt-Kept :
      (answer : Option String) (m : Session)
      → Kept m
      → Said answer
      → Kept (answer_prompt breaks intro answer m).1
  answer_prompt-Kept answer m h k =
      if-keeps KeptReply (is_awaiting m.state && m.prompting)
        (accepted, finish_prompt breaks intro answer m) (refused, m)
        (λ _. finish_prompt-Kept answer m h.sound k) (λ _. h)

  take-Kept :
      (c : Command) (m : Session) → Memᴰ (command c) calls → Kept m → Kept (take breaks intro c m).1
  take-Kept ready_command m at h =
      if-keeps KeptReply (is_connecting m.state)
        (accepted, publish breaks intro (record m { state = ready; log = intro })) (refused, m)
        (λ e.
          publish-Kept _
            (record { few = h.sound.few; once = ground (arith, h.sound.once); said = h.sound.said })
            h.closed)
        (λ _. h)
  take-Kept prepare_command m at h =
      if-keeps KeptReply (is_ready m.state) (accepted, start breaks intro m) (refused, m)
        (λ e. start-Kept m h e) (λ _. h)
  take-Kept cancel_command m at h = answer_prompt-Kept none m h tt
  take-Kept (confirm_command answer) m at h = answer_prompt-Kept (some answer) m h at

  command_case-Kept :
      (c : Command) (m : Session)
      → Memᴰ (command c) calls
      → Kept m
      → Kept (command_case breaks intro c m).1
  unfolding command_case
  command_case-Kept c m at h =
      if-keeps KeptReply (is_oversized breaks intro c) (threw, m)
        (if not m.connected then (refused, m) else take breaks intro c m) (λ _. h)
        (λ _.
          if-keeps KeptReply (not m.connected) (refused, m) (take breaks intro c m) (λ _. h)
            (λ _. take-Kept c m at h))

  prompt_case-Kept : (m : Session) → Kept m → Kept (prompt_case breaks intro m)
  unfolding prompt_case
  prompt_case-Kept m h =
      let opened : Session = record m { prompting = true; prompted = m.prompted + 1 } in
      let sound : Sound opened = record {
        few = ground (arith, h.sound.few);
        once = h.sound.once;
        said = h.sound.said;
      } in
      if-keeps Kept m.connected opened (finish_prompt breaks intro none opened)
        (λ e. record { sound = sound; closed = ground (arith, e) })
        (λ _. finish_prompt-Kept none opened sound tt)

  settle_case-Kept : (exit : ℕ) (m : Session) → Kept m → Kept (settle_case breaks intro exit m)
  unfolding settle_case
  settle_case-Kept exit m h =
      publish-Kept _
        (record { few = h.sound.few; once = ground (arith, h.sound.once); said = h.sound.said })
        h.closed

  call-Kept : (c : Call) (m : Session) → Memᴰ c calls → Kept m → Kept (call breaks intro c m).1
  unfolding call disconnect_case
  call-Kept (command c) m at h = command_case-Kept c m at h
  call-Kept disconnect m at h =
      finish_prompt-Kept none (record m { connected = false })
        (record { few = h.sound.few; once = h.sound.once; said = h.sound.said }) tt
  call-Kept (write text) m at h = append-Kept text m h
  call-Kept (enter p) m at h =
      publish-Kept _
        (record { few = h.sound.few; once = ground (arith, h.sound.once); said = h.sound.said })
        h.closed
  call-Kept report m at h = record {
    sound = record { few = h.sound.few; once = h.sound.once; said = h.sound.said };
    closed = h.closed;
  }
  call-Kept prompt m at h = prompt_case-Kept m h
  call-Kept expire m at h = finish_prompt-Kept none m h.sound tt
  call-Kept (settle exit) m at h = settle_case-Kept exit m h

  run-Kept :
      (cs : List Call) (m : Session)
      → ((c : Call) → Memᴰ c cs → Memᴰ c calls)
      → Kept m
      → Kept (run breaks intro cs m)
  unfolding run
  run-Kept [] m at h = h
  run-Kept (c ∷ cs) m at h =
      run-Kept cs (call breaks intro c m).1 (λ x k. at x (Memᴰ.tail k))
        (call-Kept c m (at c (Memᴰ.head refl)) h)

  session-Kept : Kept (run breaks intro calls initial)
  session-Kept =
      run-Kept calls initial (λ c k. k)
        (record {
          sound = record { few = omega arith; once = omega arith; said = λ a k. elim k [ ] };
          closed = refl;
        })

-- An answer that a prompt is resolved with is the text of a confirmation that the window sent.
pub resolved-confirmed :
    (breaks : ℕ → Bool) (intro : String) (calls : List Call) (answer : String)
    → Memᴰ (some answer) (run breaks intro calls initial).resolved
    → Memᴰ (command (confirm_command answer)) calls
resolved-confirmed breaks intro calls answer h =
    (session-Kept breaks intro calls).sound.said (some answer) h

-- A session starts its workflow at most once, resolves at most as many prompts as the workflow has
-- opened, and has no prompt open once the window is gone.
pub record SingleUse (m : Session) : Type 0 where
  pub once : m.started ≤ 1
  pub few : length m.resolved ≤ m.prompted
  pub closed : (not m.connected && m.prompting) ≡ false

-- Whatever it is called with, a session starts its workflow at most once, resolves at most as many
-- prompts as the workflow has opened, and has no prompt open once the window is gone.
pub run-SingleUse :
    (breaks : ℕ → Bool) (intro : String) (calls : List Call)
    → SingleUse (run breaks intro calls initial)
run-SingleUse breaks intro calls =
    let kept = session-Kept breaks intro calls in
    record {
      once = omega (arith, kept.sound.once);
      few = omega (arith, kept.sound.few);
      closed = kept.closed;
    }
