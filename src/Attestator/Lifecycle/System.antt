-- ===== src/Attestator/Lifecycle/System.antt =====
-- The two threads of an application with an attestator, and the states that they reach.
use remote_attestation.Prelude.{◌≡◌, false, Option, none, []}
use remote_attestation.DataTable.{Table}
use remote_attestation.Attestator.Lifecycle.{
  null, Thread, application, polling, pending, init_parse, absent, Process, Next, blocked, next,
  Choice, outcome, message,
}
use remote_attestation.Attestator.Lifecycle.Application.{application_step}
use remote_attestation.Attestator.Lifecycle.Polling.{Build, polling_step}

-- A step of one of the threads.
unfoldable pub step : Build → Option Table → Thread → Choice → Process → Next
step b ads application (outcome good) p = application_step ads p.application_at good p
step b ads application (message in_buffer m) p = blocked
step b ads polling c p = polling_step b p.polling_at c p

-- Before attestator_init.
abbrev pub initial : Process
initial = record {
  table = null;
  force_exit = false;
  init_finished_status = pending;
  init_finished_mutex = none;
  deinit_mutex = none;
  mutexes = false;
  registered = false;
  application_at = init_parse;
  polling_at = absent;
  flag = false;
  context = false;
  sent = [];
}

-- The states that the two threads reach, in any order of their steps.
pub data Reach (b : Build) (ads : Option Table) : Process → Type 0 where
  start : Reach b ads initial
  later :
      {p q : Process} (t : Thread) (c : Choice)
      → Reach b ads p
      → step b ads t c p ≡ next q
      → Reach b ads q
