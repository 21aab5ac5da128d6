-- ===== src/Updater/Session/Steps.antt =====
-- Steps of a sequence that follow a plan, and how they are put together.
use mathlib.Core.List.{append_assoc, append-nil}
use rtss_mailbox_umd.Base.{
  ℕ, Bool, true, false, ◌≡◌, refl, sym, ap, ◌∙◌, Option, none, some, List, [], ◌∷◌, ◌++◌,
  ℕ_discrete, ne→==, arith,
}
use rtss_mailbox_umd.Memory.{Memory}
use rtss_mailbox_umd.Update.Message.{msg_size, set_run, read_msg}
use rtss_mailbox_umd.Updater.Boot.{BootReport, get_bl_partition_status, judge_boot}
use rtss_mailbox_umd.Updater.Response.{
  Handshake, Heard, heard, response_read, cbk_notify_handler, boot_report,
}
use rtss_mailbox_umd.Updater.Session.{
  Command, Event, sends, answered, judged, reboots, Setup, State, Result, ok, exits, waits, Action,
  bind_from, ◌>>=◌, logged, perform, await, ask, judge, load, answer, reboot, clear_buffer, counted,
}
use rtss_mailbox_umd.Updater.Session.Trace.{
  Mark, asks, judges, restarts, brief, Trace, complete, stopped, unanswered, refused, accepted,
  passed, restarted, Trace-append, Trace-stops, last_status, last_status-append, IsStatus,
}

abbrev pub is_ok : {A : Type 0} → Result A → Bool
is_ok (ok a) = true
is_ok exits = false
is_ok waits = false

-- What a step has added to the log is in order with the plan, and the status kept is the last in it.
abbrev pub Adds : {A : Type 0} → List Mark → State → Result A × State → Type 0
Adds plan s (r, s') =
    (t : List Event) × (s'.log ≡ s.log ++ t)
    × (s'.hndshk.resp_status ≡ last_status s.hndshk.resp_status t)
    × Trace s.hndshk.resp_status plan (is_ok r) t

pub record Follows {A : Type 0} (plan : List Mark) (m : Action A) : Type 0 where
  pub keeps : (s : State) → Adds plan s (m s)

bind_from-Adds :
    {A B : Type 0} (p q : List Mark) (s : State) (r : Result A) (s1 : State) (f : A → Action B)
    → Adds p s (r, s1)
    → ((a : A) → Follows q (f a))
    → Adds (p ++ q) s (bind_from r s1 f)
bind_from-Adds p q s (ok a) s1 f (t, e, k, done) next =
    let (u, e', k', rest) = (next a).keeps s1 in
    (
      t ++ u,
      e' ∙ ap (λ l. l ++ u) e ∙ append_assoc s.log t u,
      k' ∙ ap (λ (st : ℕ). last_status st u) k ∙ sym (last_status-append s.hndshk.resp_status t u),
      Trace-append done (rw (← k) rest),
    )
bind_from-Adds p q s exits s1 f (t, e, k, done) next = (t, e, k, Trace-stops q done)
bind_from-Adds p q s waits s1 f (t, e, k, done) next = (t, e, k, Trace-stops q done)

pub bind-Follows :
    {A B : Type 0} (p q : List Mark) (m : Action A) (f : A → Action B)
    → Follows p m
    → ((a : A) → Follows q (f a))
    → Follows (p ++ q) (m >>= f)
unfolding ◌>>=◌
bind-Follows p q m f h next = record {
  keeps = λ s. bind_from-Adds p q s (m s).0 (m s).1 f (h.keeps s) next;
}

-- The log, and the status that is kept, stay.
abbrev pub IsQuiet : State → State → Type 0
IsQuiet s s' = (s'.log ≡ s.log) × (s'.hndshk.resp_status ≡ s.hndshk.resp_status)

quiet : {A : Type 0} (s : State) (r : Result A) (s' : State) → IsQuiet s s' → Adds [] s (r, s')
quiet s (ok a) s' (e, k) = ([], e ∙ sym (append-nil s.log), k, complete)
quiet s exits s' (e, k) = ([], e ∙ sym (append-nil s.log), k, stopped)
quiet s waits s' (e, k) = ([], e ∙ sym (append-nil s.log), k, stopped)

-- A step that logs nothing.
pub silent : {A : Type 0} (m : Action A) → ((s : State) → IsQuiet s (m s).1) → Follows [] m
silent m h = record { keeps = λ s. quiet s (m s).0 (m s).1 (h s) }

module _ (c : Setup) where
  pub load-Follows : (path : List ℕ) → Follows [] (load c path)
  unfolding load
  load-Follows path = silent (load c path) (λ s. (refl, refl))

  pub clear_buffer-Follows : (len : ℕ) → Follows [] (clear_buffer c len)
  unfolding clear_buffer
  clear_buffer-Follows len = silent (clear_buffer c len) (λ s. (refl, refl))

  pub reboot-Follows : Follows (restarts ∷ []) (reboot c)
  unfolding reboot
  reboot-Follows = record { keeps = λ s. (reboots ∷ [], refl, refl, restarted complete) }

  counted_status :
      (o : Option BootReport) (h : Handshake) → (counted c o h).resp_status ≡ h.resp_status
  counted_status none h = refl
  counted_status (some r) h = refl

  judge-Adds : (s : State) → Adds (judges ∷ []) s (judge c s)
  unfolding judge
  judge-Adds s = elim (ℕ_discrete (judge_boot r) 0) [
    | yes good ↦ rw good (
      judged r ∷ [],
      refl,
      counted_status (get_bl_partition_status (some r)).1 s.hndshk,
      passed r good complete,
    )
    | no bad ↦ rw (ne→== _ _ bad) (
      [],
      sym (append-nil s.log),
      counted_status (get_bl_partition_status (some r)).1 s.hndshk,
      stopped,
    )
  ]
    where
      r : BootReport
      r = boot_report s.mem c.entries s.hndshk

  pub judge-Follows : Follows (judges ∷ []) (judge c)
  judge-Follows = record { keeps = judge-Adds }

  -- The handler keeps the status where it could read nothing.
  abbrev Keeps : ℕ → Heard → Option (Memory × Handshake) → Type 0
  Keeps k how none = k ≡ k
  Keeps k how (some (m', h')) = IsStatus k how h'.resp_status

  response_read-Keeps :
      (rx_msg : ℕ) (h : Handshake) (got : Option (ℕ × Memory))
      → Keeps h.resp_status (heard rx_msg got) (response_read rx_msg h got)
  unfolding response_read heard
  response_read-Keeps rx_msg h none = refl
  response_read-Keeps rx_msg h (some (code, m)) = ground arith

  -- The response to a command that has just been sent.
  answer-Adds :
      (q : Command) (s sent : State) (how : Heard) (o : Option (Memory × Handshake))
      → sent.log ≡ s.log ++ sends q ∷ []
      → sent.hndshk.resp_status ≡ s.hndshk.resp_status
      → Keeps s.hndshk.resp_status how o
      → Adds (asks (brief q) ∷ []) s (answer c sent how o)
  answer-Adds q s sent how none e k h = (sends q ∷ [], e, k, unanswered q refl)
  answer-Adds q s sent how (some (m', h')) e k h = elim (ℕ_discrete h'.resp_status 0) [
    | yes good ↦ rw good (
      sends q ∷ answered how 0 ∷ [],
      log_lem 0,
      refl,
      accepted q how refl (rw good at h) complete,
    )
    | no bad ↦ rw (ne→== _ _ bad) (
      sends q ∷ answered how h'.resp_status ∷ [],
      log_lem h'.resp_status,
      refl,
      refused q how h'.resp_status refl h bad,
    )
  ]
    where
      log_lem :
          (st : ℕ) → sent.log ++ answered how st ∷ [] ≡ s.log ++ sends q ∷ answered how st ∷ []
      log_lem st =
          ap (λ l. l ++ answered how st ∷ []) e
          ∙ append_assoc s.log (sends q ∷ []) (answered how st ∷ [])

  -- What the handler reads for a command that has been sent.
  abbrev reading : State → Option (ℕ × Memory)
  reading s =
      let around = c.turns s.turn in
      read_msg c.api (set_run (around.leaves s.mem) c.rx_msg 0 msg_size) c.rx_msg c.rx around.wakes

  ask-Adds : (q : Command) (s : State) → Adds (asks (brief q) ∷ []) s (ask c q s)
  unfolding ask await cbk_notify_handler
  ask-Adds q s =
      let o = perform c (c.turns s.turn).sys q s.mem in
      elim (ℕ_discrete o.0 0) [
        | yes sent_ok ↦
            let sent = logged (sends q) (record s { mem = o.1 }) in
            rw sent_ok (
              answer-Adds q s sent _ _ refl refl
                (response_read-Keeps c.rx_msg s.hndshk (reading sent)))
        | no failed ↦ rw (ne→== _ _ failed) ([], sym (append-nil s.log), refl, stopped)
      ]

  pub ask-Follows : (q : Command) → Follows (asks (brief q) ∷ []) (ask c q)
  ask-Follows q = record { keeps = ask-Adds q }

module _ {A B : Type 0} {plan : List Mark} {f : A → Action B} where
  -- A step that logs nothing comes first.
  pub quietly :
      {m : Action A} → Follows [] m → ((a : A) → Follows plan (f a)) → Follows plan (m >>= f)
  quietly {m} h next = bind-Follows [] plan m f h next

  pub then_follows :
      {first : List Mark} {m : Action A}
      → Follows first m
      → ((a : A) → Follows plan (f a))
      → Follows (first ++ plan) (m >>= f)
  then_follows {first} {m} h next = bind-Follows first plan m f h next

module _ (c : Setup) {B : Type 0} {plan : List Mark} {f : Unit {0} → Action B} where
  -- A command comes first.
  pub asking :
      (q : Command)
      → ((a : Unit {0}) → Follows plan (f a))
      → Follows (asks (brief q) ∷ plan) (ask c q >>= f)
  asking q next = bind-Follows (asks (brief q) ∷ []) plan (ask c q) f (ask-Follows c q) next
