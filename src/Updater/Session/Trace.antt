-- ===== src/Updater/Session/Trace.antt =====
-- What a sequence is meant to do, a list of marks, and the logs that are in order with it.
use rtss_mailbox_umd.Base.{ℕ, Bool, true, false, ◌≡◌, ◌≢◌, refl, some, List, [], ◌∷◌, ◌++◌, ◌⊎◌}
use rtss_mailbox_umd.Updater.Boot.{BootReport, judge_boot}
use rtss_mailbox_umd.Updater.Command.{exit_success}
use rtss_mailbox_umd.Updater.Request.{flash_image, read_image, fix_gpt, read_gpt, update_gpt, id_of}
use rtss_mailbox_umd.Updater.Response.{Heard, unread}
use rtss_mailbox_umd.Updater.Session.{
  Command, request, write_gpt, Event, sends, answered, judged, reboots,
}

-- What matters of a command beside the data that it moves: for an image its name, the table, the
-- partition and how it is flashed; else the identifier of its message, and the table where there
-- is one.
pub data Brief : Type 0 where
  plain : (id : ℕ) → Brief
  table : (id gpt : ℕ) → Brief
  reads : (name : List ℕ) → (gpt partition : ℕ) → Brief
  flashes : (name : List ℕ) → (gpt partition flashtype : ℕ) → Brief

-- RTSS_UPD_MSG_WRITE_GPT is 3.
unfoldable pub brief : Command → Brief
unfolding id_of
brief (write_gpt g _ _ _ _ _) = table 3 g
brief (request (read_gpt g _ _ _)) = table 2 g
brief (request (fix_gpt g _ _ _)) = table 4 g
brief (request (update_gpt _ g _ _ _ _)) = table 5 g
brief (request (read_image (some name) p g _ _)) = reads name g p
brief (request (flash_image (some name) g p _ _ _ t _)) = flashes name g p t
brief (request q) = plain (id_of q)

pub data Mark : Type 0 where
  asks : Brief → Mark
  judges restarts : Mark

-- The status that the handler keeps behind a log, from the one before it.
abbrev pub last_status : ℕ → List Event → ℕ
last_status k [] = k
last_status k (answered how st ∷ t) = last_status st t
last_status k (sends q ∷ t) = last_status k t
last_status k (judged r ∷ t) = last_status k t
last_status k (reboots ∷ t) = last_status k t

-- Where nothing could be read the status is the one that was kept.
abbrev pub IsStatus : ℕ → Heard → ℕ → Type 0
IsStatus k how st = (how ≢ unread) ⊎ (st ≡ k)

-- A log in order with a plan, from a kept status on. Each command of the plan is sent only after the
-- handler has returned for the one before it with status 0, and a boot report is passed only if it
-- is good. It is `true` for a whole plan, and `false` where the run has stopped.
pub data Trace : ℕ → List Mark → Bool → List Event → Type 0 where
  complete : {k : ℕ} → Trace k [] true []
  stopped : {k : ℕ} {plan : List Mark} → Trace k plan false []
  unanswered :
      {k : ℕ} {b : Brief} {plan : List Mark} (q : Command)
      → brief q ≡ b
      → Trace k (asks b ∷ plan) false (sends q ∷ [])
  refused :
      {k : ℕ} {b : Brief} {plan : List Mark} (q : Command) (how : Heard) (status : ℕ)
      → brief q ≡ b
      → IsStatus k how status
      → status ≢ 0
      → Trace k (asks b ∷ plan) false (sends q ∷ answered how status ∷ [])
  accepted :
      {k : ℕ} {b : Brief} {plan : List Mark} {e : Bool} {t : List Event} (q : Command) (how : Heard)
      → brief q ≡ b
      → IsStatus k how 0
      → Trace 0 plan e t
      → Trace k (asks b ∷ plan) e (sends q ∷ answered how 0 ∷ t)
  passed :
      {k : ℕ} {plan : List Mark} {e : Bool} {t : List Event} (r : BootReport)
      → judge_boot r ≡ exit_success
      → Trace k plan e t
      → Trace k (judges ∷ plan) e (judged r ∷ t)
  restarted :
      {k : ℕ} {plan : List Mark} {e : Bool} {t : List Event}
      → Trace k plan e t
      → Trace k (restarts ∷ plan) e (reboots ∷ t)

pub Trace-append :
    {k : ℕ} {p q : List Mark} {e : Bool} {t u : List Event}
    → Trace k p true t
    → Trace (last_status k t) q e u
    → Trace k (p ++ q) e (t ++ u)
Trace-append complete next = next
Trace-append (accepted c how h st done) next = accepted c how h st (Trace-append done next)
Trace-append (passed r h done) next = passed r h (Trace-append done next)
Trace-append (restarted done) next = restarted (Trace-append done next)

pub Trace-stops :
    {k : ℕ} {p : List Mark} (q : List Mark) {t : List Event}
    → Trace k p false t
    → Trace k (p ++ q) false t
Trace-stops q stopped = stopped
Trace-stops q (unanswered c h) = unanswered c h
Trace-stops q (refused c how st h k bad) = refused c how st h k bad
Trace-stops q (accepted c how h st done) = accepted c how h st (Trace-stops q done)
Trace-stops q (passed r h done) = passed r h (Trace-stops q done)
Trace-stops q (restarted done) = restarted (Trace-stops q done)

pub last_status-append :
    (k : ℕ) (t u : List Event) → last_status k (t ++ u) ≡ last_status (last_status k t) u
last_status-append k [] u = refl
last_status-append k (answered how st ∷ t) u = last_status-append st t u
last_status-append k (sends q ∷ t) u = last_status-append k t u
last_status-append k (judged r ∷ t) u = last_status-append k t u
last_status-append k (reboots ∷ t) u = last_status-append k t u
