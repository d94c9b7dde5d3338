-- ===== src/Provider/Status/Phases.antt =====
-- The parts of a reported status agree with each other.
use macos_exec_kubelet.Base.{
  ℕ, zero, suc, String, true, none, some, [], ◌∷◌, ℤ, pos, negsuc, int32, ◌≡◌, ◌≢◌, ◌↔◌, refl,
  arith, nat_eq,
}
use macos_exec_kubelet.Api.{
  Phase, running, succeeded, failed, Time, Terminated, ContainerStatus, PodStatus,
}
use macos_exec_kubelet.Client.Process.{PodProcess}
use macos_exec_kubelet.Provider.Status.{phase_of, status_in, get_pod_status_from_process}

-- A status with one container: in the phase `running` it is ready and has only a start time, in
-- any other phase it is not ready and has only an end with the process's exit code as an int32.
pub record Agrees (p : PodProcess) (s : PodStatus) : Type 0 where
  pub container : ContainerStatus
  pub only_one : s.container_statuses ≡ container ∷ []
  pub ready_iff : (container.ready ≡ true) ↔ (s.phase ≡ running)
  pub started : s.phase ≡ running → container.state.running_since ≡ some p.started_at
  pub not_ended : s.phase ≡ running → container.state.terminated ≡ none
  pub not_started : s.phase ≢ running → container.state.running_since ≡ none
  pub ended :
      s.phase ≢ running
      → (t : Terminated) × (container.state.terminated ≡ some t) × (t.exit_code ≡ int32 p.exit_code)

status_in-Agrees :
    (ip : String) (now : Time) (p : PodProcess) (ph : Phase) → Agrees p (status_in ip now p ph)
unfolding status_in
status_in-Agrees ip now p running = record {
  container = _;
  only_one = refl;
  ready_iff = (λ _. refl, λ _. refl);
  started = λ _. refl;
  not_ended = λ _. refl;
  not_started = λ n. absurd (n refl);
  ended = λ n. absurd (n refl);
}
status_in-Agrees ip now p other = record {
  container = _;
  only_one = refl;
  ready_iff = (λ h. cc, λ h. cc);
  started = λ h. cc;
  not_ended = λ h. cc;
  not_started = λ _. refl;
  ended = λ _. (_, refl, refl);
}

phase_of-succeeded : (z : ℤ) (t : Time) → (phase_of z t ≡ succeeded) ↔ (z ≡ pos 0)
unfolding phase_of
phase_of-succeeded z t = ground arith

phase_of-failed : (z : ℤ) (t : Time) → (phase_of z t ≡ failed) ↔ ((n : ℕ) × (z ≡ pos (suc n)))
unfolding phase_of
phase_of-failed (pos zero) t = (λ h. absurd (ground arith), λ (n, h). absurd (ground arith))
phase_of-failed (pos (suc n)) t = (λ h. (n, refl), λ h. ground arith)
phase_of-failed (negsuc n) t = (λ h. absurd (ground arith), λ (n, h). absurd (ground arith))

phase_of-running :
    (z : ℤ) (t : Time) → (phase_of z t ≡ running) ↔ (((n : ℕ) × (z ≡ negsuc n)) × (t ≢ 0))
unfolding phase_of
phase_of-running (pos n) t = (λ h. absurd (ground arith), λ ((m, h), _). absurd (ground arith))
phase_of-running (negsuc n) t = (λ h. ((n, refl), ground arith), λ (_, z). ground arith)

-- Whatever the process, the parts of its status agree; the phase is succeeded for exit code 0,
-- failed for a positive code, and for a negative code running if the process has a start time and
-- pending if not.
pub get_pod_status_from_process_lem :
    (ip : String) (now : Time) (p : PodProcess)
    → let s = get_pod_status_from_process ip now p in
      Agrees p s
      × ((s.phase ≡ succeeded) ↔ (p.exit_code ≡ pos 0))
      × ((s.phase ≡ failed) ↔ ((n : ℕ) × (p.exit_code ≡ pos (suc n))))
      × ((s.phase ≡ running) ↔ (((n : ℕ) × (p.exit_code ≡ negsuc n)) × (p.started_at ≢ 0)))
unfolding get_pod_status_from_process
get_pod_status_from_process_lem ip now p = (
  status_in-Agrees ip now p (phase_of p.exit_code p.started_at),
  phase_of-succeeded p.exit_code p.started_at,
  phase_of-failed p.exit_code p.started_at,
  phase_of-running p.exit_code p.started_at,
)
