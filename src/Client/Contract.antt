-- ===== src/Client/Contract.antt =====
-- What RuntimeClient of pkg/client/client_apis.go promises: a map from keys to pods. The process
-- client serves its requests one after the other, and processes exit in between.
pub mod Pods
pub mod Refinement
use macos_exec_kubelet.Base.{
  ℕ, Option, none, some, List, [], ◌∷◌, ◌++◌, ◌≢◌, Error, not_found, Result, ok, err,
  NamespacedName, key_eq, ◌≡◌,
}
use macos_exec_kubelet.Base.Dict
use macos_exec_kubelet.Base.Dict.{Dict}
use macos_exec_kubelet.Api.{Pod, pod_key, Container}
use macos_exec_kubelet.Client.Calls.{Os}
use macos_exec_kubelet.Client.Process.{ProcessClient, PodProcess, process_key, reap}
use macos_exec_kubelet.Client.Create
use macos_exec_kubelet.Client.Create.Willing.{IsWilling}
use macos_exec_kubelet.Client.Delete
use macos_exec_kubelet.Client.Delete.{Waiting}
use macos_exec_kubelet.Client.Query

-- What happens to a client: a call of one of its methods, or the exit of a process.
pub data Request : Type 0 where
  create : Pod → Request
  delete : NamespacedName → Waiting → Request
  get : NamespacedName → Request
  list : Request
  exit : ℕ → Option Error → Request

pub data Reply : Type 0 where
  done : Option Error → Reply
  got : Result PodProcess → Reply
  listing : Dict NamespacedName PodProcess → Reply
  silent : Reply

unfoldable pub serve : Os → Request → ProcessClient → Reply × ProcessClient
serve os (create pod) c = let (e, d) = Create.create_pod os pod c in (done e, d)
serve os (delete k w) c = let (e, d) = Delete.delete_pod k w c in (done e, d)
serve os (get k) c = let (r, d) = Query.get_pod k c in (got r, d)
serve os list c = (listing (Query.get_pod_list c), c)
serve os (exit h e) c = (silent, reap h e c)

unfoldable pub serve_all : Os → List Request → ProcessClient → List Reply
serve_all os [] c = []
serve_all os (r ∷ rs) c = let (a, d) = serve os r c in a ∷ serve_all os rs d

abbrev pub Pods : Type 0
Pods = Dict NamespacedName Pod

abbrev pub pod_in : Option PodProcess → Option Pod
pod_in none = none
pod_in (some p) = p.pod

-- The pod has a first container, and that one a command or arguments.
abbrev pub IsRunnable : Pod → Type 0
IsRunnable pod =
    (container : Container) × (others : List Container) × (pod.spec.containers ≡ container ∷ others)
    × (container.command ++ container.args ≢ [])

-- The replies that a map of pods allows. A pod is created only under a free key, and it is created
-- there if it can be run and the system refuses nothing. What is known can be deleted and is found,
-- and nothing else.
pub data Answers (os : Os) (m : Pods) : Request → Reply → Pods → Type 0 where
  creates :
      (pod : Pod)
      → Dict.lookup (pod_key pod) m ≡ none
      → Answers os m (create pod) (done none) (Dict.insert (pod_key pod) pod m)
  refuses :
      (pod : Pod) (e : Error)
      → ¬ (IsWilling os × IsRunnable pod × (Dict.lookup (pod_key pod) m ≡ none))
      → Answers os m (create pod) (done (some e)) m
  deletes :
      (k : NamespacedName) (w : Waiting) (pod : Pod)
      → Dict.lookup k m ≡ some pod
      → Answers os m (delete k w) (done none) (Dict.erase k m)
  deletes_nothing :
      (k : NamespacedName) (w : Waiting)
      → Dict.lookup k m ≡ none
      → Answers os m (delete k w) (done (some (not_found "pod process not found"))) m
  gets :
      (k : NamespacedName) (p : PodProcess) (pod : Pod)
      → Dict.lookup k m ≡ some pod
      → p.pod ≡ some pod
      → process_key p ≡ k
      → Answers os m (get k) (got (ok p)) m
  gets_nothing :
      (k : NamespacedName)
      → Dict.lookup k m ≡ none
      → Answers os m (get k) (got (err (not_found "pod process not found"))) m
  lists :
      (d : Dict NamespacedName PodProcess)
      → ((k : NamespacedName) → pod_in (Dict.lookup k d) ≡ Dict.lookup k m)
      → Answers os m list (listing d) m
  exits : (h : ℕ) (e : Option Error) → Answers os m (exit h e) silent m

pub data AnswersAll (os : Os) : Pods → List Request → List Reply → Type 0 where
  end : {m : Pods} → AnswersAll os m [] []
  answered :
      {m n : Pods} {r : Request} {a : Reply} {rs : List Request} {replies : List Reply}
      → Answers os m r a n
      → AnswersAll os n rs replies
      → AnswersAll os m (r ∷ rs) (a ∷ replies)
