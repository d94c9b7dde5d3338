-- ===== src/Client/Reach.antt =====
-- The runs of a process client: its methods, called one after the other, and processes that exit
-- between them.
use macos_exec_kubelet.Base.{ℕ, String, Option, Error, NamespacedName, key_eq, ◌≡◌, refl, arith}
use macos_exec_kubelet.Base.Dict
use macos_exec_kubelet.Api.{Pod}
use macos_exec_kubelet.Client.Calls.{Os, Credential, StartsAs}
use macos_exec_kubelet.Client.Process.{ProcessClient, new_client, reap}
use macos_exec_kubelet.Client.Create.{create_pod}
use macos_exec_kubelet.Client.Create.Cleanup.{create_pod-StartsAs}
use macos_exec_kubelet.Client.Delete.{Waiting, exits, times_out, delete_pod}
use macos_exec_kubelet.Client.Query.{get_pod, get_container_logs}
use macos_exec_kubelet.Client.Invariant.{IsSound, BelongsTo-same_states}
use macos_exec_kubelet.Client.Invariant.Steps.{create_pod-IsSound}
use macos_exec_kubelet.Client.Invariant.Exits.{reap-IsSound, delete_pod-IsSound, get_pod-IsSound}

-- The user of the client stays, and all its processes were started as that user.
pub record RunsAs (user : Option Credential) (c : ProcessClient) : Type 0 where
  pub same_user : c.credential ≡ user
  pub started_so : StartsAs c.credential c.calls

module _ (os : Os) where
  pub data Step (c : ProcessClient) : ProcessClient → Type 0 where
    creates : (pod : Pod) → Step c (create_pod os pod c).1
    deletes : (k : NamespacedName) (w : Waiting) → Step c (delete_pod k w c).1
    gets : (k : NamespacedName) → Step c (get_pod k c).1
    reads_logs : (ns name container : String) → Step c (get_container_logs os ns name container c).1
    ends : (h : ℕ) (e : Option Error) → Step c (reap h e c)

  pub data Reach (dir : String) (user : Option Credential) : ProcessClient → Type 0 where
    fresh : Reach dir user (new_client dir user)
    later : {c d : ProcessClient} → Reach dir user c → Step c d → Reach dir user d

  pub new_client-IsSound : (dir : String) (user : Option Credential) → IsSound (new_client dir user)
  unfolding Dict.lookup
  new_client-IsSound dir user = record {
    nodup = tt;
    described = λ k h l. cc;
    no_orphan = λ h s p r. cc;
    no_leak = λ f o. cc;
  }

  pub get_container_logs-IsSound :
      (ns name container : String) (c : ProcessClient)
      → IsSound c
      → IsSound (get_container_logs os ns name container c).1
  unfolding get_container_logs
  get_container_logs-IsSound ns name container c v = record {
    nodup = v.nodup;
    described = v.described;
    no_orphan = v.no_orphan;
    no_leak = λ f o. BelongsTo-same_states f refl (v.no_leak f o);
  }

  Step-IsSound : {c d : ProcessClient} → Step c d → IsSound c → IsSound d
  Step-IsSound {c} (creates pod) v = create_pod-IsSound os pod c v
  Step-IsSound {c} (deletes k w) v = delete_pod-IsSound k w c v
  Step-IsSound {c} (gets k) v = get_pod-IsSound k c v
  Step-IsSound {c} (reads_logs ns name container) v =
      get_container_logs-IsSound ns name container c v
  Step-IsSound {c} (ends h e) v = reap-IsSound h e c v

  -- However its methods are called and its processes end, a client lists no key twice, finds under
  -- each key the pod that was stored there, can reach every process that still runs, and keeps
  -- open only the files of such processes.
  pub Reach-IsSound :
      {dir : String} {user : Option Credential} {c : ProcessClient} → Reach dir user c → IsSound c
  Reach-IsSound {dir} {user} fresh = new_client-IsSound dir user
  Reach-IsSound (later r st) = Step-IsSound st (Reach-IsSound r)

  Step-RunsAs :
      {user : Option Credential} {c d : ProcessClient} → Step c d → RunsAs user c → RunsAs user d
  unfolding create_pod delete_pod get_pod get_container_logs reap
  Step-RunsAs {c} (creates pod) r = record {
    same_user = ground (arith, r.same_user);
    started_so = create_pod-StartsAs os pod c r.started_so;
  }
  Step-RunsAs (deletes k (exits e)) r = ground (arith, r.same_user)
  Step-RunsAs (deletes k (times_out e)) r = ground (arith, r.same_user)
  Step-RunsAs (gets k) r = ground (arith, r.same_user)
  Step-RunsAs (reads_logs ns name container) r = ground (arith, r.same_user)
  Step-RunsAs (ends h e) r = ground (arith, r.same_user)

  -- However its methods are called and its processes end, a client keeps the user that it was made
  -- with, and each process that it has tried to start was to run as that user.
  pub Reach-RunsAs :
      {dir : String} {user : Option Credential} {c : ProcessClient}
      → Reach dir user c
      → RunsAs user c
  Reach-RunsAs fresh = record { same_user = refl; started_so = tt }
  Reach-RunsAs (later r st) = Step-RunsAs st (Reach-RunsAs r)
