-- ===== src/Controller/Workspaces/Binding/Choice.antt =====
-- The Pod that a first binding takes.
use kruntimes.Base.{
  ℕ, ◌%◌, ◌^◌, ◌<◌, ◌≡◌, refl, string_eq, true, List, [], ◌∷◌, Option, none, some, arith, inl, inr,
  ◌⊎◌, length, get_elem?, zero, suc,
}
use kruntimes.Base.Results.{ok, OnOk}
use kruntimes.Base.Sort.{Member, Member-sort_by, Member-select}
use kruntimes.Api.Pod.{Pod, PodCondition}
use kruntimes.Api.Workspace.{PersistentWorkspace, bound_workspace, pending_workspace}
use kruntimes.RuntimePod.{is_runtimed_ready}
use kruntimes.Scheduler.Environment.{Answer, found, not_found, unavailable}
use kruntimes.Scheduler.Filters.{is_pod_schedulable, ready_condition}
use kruntimes.Controller.Workspaces.{WorkspaceParts, with_condition, with_phase}
use kruntimes.Controller.Workspaces.Binding.{
  is_binding_candidate, is_pod_ready, ready_in, ready_runtime_pods, select_persistent_workspace_pod,
  binding_key, bind_among, bind_to, bound_form, bind_pending_workspace, persistent_workspace_path,
}

get_elem?-Member :
    {A : Type 0} (xs : List A) (i : ℕ) (x : A) → get_elem? xs i ≡ some x → Member x xs
get_elem?-Member [] i x h = absurd (ground arith)
get_elem?-Member (y ∷ ys) zero x h = inl (cc)
get_elem?-Member (y ∷ ys) (suc i) x h = inr (get_elem?-Member ys i x h)

get_elem?-some :
    {A : Type 0} (xs : List A) (i : ℕ) → i < length xs → (x : A) × (get_elem? xs i ≡ some x)
get_elem?-some [] i h = absurd (ground arith)
get_elem?-some (y ∷ ys) zero h = (y, refl)
get_elem?-some (y ∷ ys) (suc i) h = get_elem?-some ys i (omega arith)

-- The two readers of the Ready condition agree.
ready_in-eq : (cs : List PodCondition) → ready_in cs ≡ ready_condition cs
unfolding ready_in ready_condition
ready_in-eq [] = refl
ready_in-eq (c ∷ cs) = rw (ready_in-eq cs) refl

-- A listed Pod that is ready for a Run and whose runtimed is ready.
pub record IsCandidate (items : List Pod) (pod : Pod) : Type 0 where
  pub listed : Member pod items
  pub schedulable : is_pod_schedulable pod ≡ true
  pub runtimed_is_ready : is_runtimed_ready pod ≡ true

ready_runtime_pods-IsCandidate :
    (items : List Pod) (pod : Pod) → Member pod (ready_runtime_pods items) → IsCandidate items pod
unfolding ready_runtime_pods is_binding_candidate is_pod_ready is_pod_schedulable
ready_runtime_pods-IsCandidate items pod m =
    let (member, passes) =
      Member-select is_binding_candidate pod items (Member-sort_by _ pod _ m) in
    record {
      listed = member;
      schedulable = ground (arith, ready_in-eq pod.conditions);
      runtimed_is_ready = ground arith;
    }

-- What a binding writes.
pub record IsBinding (w new : PersistentWorkspace) (pod : Pod) : Type 0 where
  pub same_spec : new.spec ≡ w.spec
  pub is_bound : new.status.phase ≡ bound_workspace
  pub to_pod : new.status.bound_pod ≡ pod.name
  pub to_uid : new.status.bound_pod_uid ≡ pod.uid
  pub at_path : new.status.path ≡ persistent_workspace_path w.name

-- What is written where no Pod is ready.
pub record IsUnbound (w new : PersistentWorkspace) : Type 0 where
  pub is_pending : new.status.phase ≡ pending_workspace
  pub same_pod : new.status.bound_pod ≡ w.status.bound_pod
  pub same_uid : new.status.bound_pod_uid ≡ w.status.bound_pod_uid

-- The phase after a binding.
abbrev pub IsPlaced : PersistentWorkspace → Type 0
IsPlaced new = (new.status.phase ≡ pending_workspace) ⊎ (new.status.phase ≡ bound_workspace)

module _ (parts : WorkspaceParts) (now : ℕ) where
  select_persistent_workspace_pod-Member :
      (w : PersistentWorkspace) (first : Pod) (pods : List Pod)
      → length (first ∷ pods) < 2 ^ 32
      → (pod : Pod) × Member pod (first ∷ pods)
        × (select_persistent_workspace_pod parts w (first ∷ pods) ≡ some pod)
  unfolding select_persistent_workspace_pod
  select_persistent_workspace_pod-Member w first pods few =
      let i = parts.fnv32a (binding_key w) % (length (first ∷ pods) % 2 ^ 32) in
      let inside : i < length (first ∷ pods) = omega arith in
      let (pod, at) = get_elem?-some (first ∷ pods) i inside in
      (pod, get_elem?-Member (first ∷ pods) i pod at, at)

  bind_among_lem :
      (w : PersistentWorkspace) (pods : List Pod)
      → length pods < 2 ^ 32
      → (new : PersistentWorkspace) × (bind_among parts now w pods ≡ ok new)
        × ((pods ≡ []) × IsUnbound w new ⊎ (pod : Pod) × Member pod pods × IsBinding w new pod)
  unfolding bind_among bind_to bound_form with_condition with_phase
  bind_among_lem w [] few =
      (_, refl, inl (refl, record { is_pending = refl; same_pod = refl; same_uid = refl }))
  bind_among_lem w (first ∷ pods) few =
      let (pod, member, selected) = select_persistent_workspace_pod-Member w first pods few in
      let bound : IsBinding w (bound_form parts now w pod) pod = record {
        same_spec = refl;
        is_bound = refl;
        to_pod = refl;
        to_uid = refl;
        at_path = refl;
      } in
      (bound_form parts now w pod, rw selected refl, inr (pod, member, bound))

  -- For any workspace and fewer than 2^32 ready Pods: the first binding never fails and never
  -- indexes out of range. Without a ready Pod the workspace stays pending and unbound; otherwise it
  -- is bound, by name and UID, to a listed Pod that is running, ready and not being deleted and
  -- whose runtimed is ready.
  pub bind_pending_workspace-eq :
      (w : PersistentWorkspace) (items : List Pod)
      → length (ready_runtime_pods items) < 2 ^ 32
      → (new : PersistentWorkspace) × (bind_pending_workspace parts now (found items) w ≡ ok new)
        × ((ready_runtime_pods items ≡ []) × IsUnbound w new
            ⊎ (pod : Pod) × IsCandidate items pod × IsBinding w new pod)
  unfolding bind_pending_workspace
  bind_pending_workspace-eq w items few =
      let (new, result, outcome) = bind_among_lem w (ready_runtime_pods items) few in
      (
        new,
        result,
        elim outcome [
          | inl unbound ↦ inl unbound
          | inr (pod, member, bound) ↦
              inr (pod, ready_runtime_pods-IsCandidate items pod member, bound)
        ],
      )

  bind_to-IsPlaced :
      (w : PersistentWorkspace) (pod : Option Pod) → OnOk IsPlaced (bind_to parts now w pod)
  unfolding bind_to bound_form with_condition
  bind_to-IsPlaced w none = tt
  bind_to-IsPlaced w (some pod) = inr refl

  bind_among-IsPlaced :
      (w : PersistentWorkspace) (pods : List Pod) → OnOk IsPlaced (bind_among parts now w pods)
  unfolding bind_among with_condition with_phase
  bind_among-IsPlaced w [] = inl refl
  bind_among-IsPlaced w (pod ∷ pods) = bind_to-IsPlaced w _

  pub bind_pending_workspace-IsPlaced :
      (w : PersistentWorkspace) (answer : Answer (List Pod))
      → OnOk IsPlaced (bind_pending_workspace parts now answer w)
  unfolding bind_pending_workspace
  bind_pending_workspace-IsPlaced w (found items) = bind_among-IsPlaced w (ready_runtime_pods items)
  bind_pending_workspace-IsPlaced w not_found = tt
  bind_pending_workspace-IsPlaced w unavailable = tt
