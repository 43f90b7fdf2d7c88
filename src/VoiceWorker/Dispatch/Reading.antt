-- ===== src/VoiceWorker/Dispatch/Reading.antt =====
-- What `status` prints for an id.
use nyc_pa_aws_gitops.Prelude.{
  String, ◌≡◌, inl, inr, refl, sym, ap, subst, ◌∙◌, true, false, some, List, [], ◌∷◌, eq_iff, arith,
}
use nyc_pa_aws_gitops.Prelude.Dict.{Dict, set, has}
use nyc_pa_aws_gitops.Prelude.DictLaws.{has-set}
use nyc_pa_aws_gitops.Prelude.Json.{Json}
use nyc_pa_aws_gitops.Prelude.Python.{Python}
use nyc_pa_aws_gitops.VoiceWorker.Dispatch.{
  Config, Disk, Reply, Input, queued, task, is_task_id, queued_state, load_status, present,
  task_reply, new_id, status, dispatch,
}
use nyc_pa_aws_gitops.VoiceWorker.Dispatch.Effect.{Effect, is_queued, dispatch-Effect}

queued_inj : {a b : String} → queued a ≡ queued b → a ≡ b
queued_inj h = cc

absurd_queued {ℓ} : {A : Type ℓ} → false ≡ true → A
absurd_queued h = cc

load_status-set :
    (d : Disk) (id : String) (t : Dict Json)
    → has id d.status ≡ false
    → load_status (record d { queue = set id t d.queue }) id ≡ some (queued_state id)
unfolding load_status
load_status-set d id t h = ground (arith, eq_iff id id, has-set id id t d.queue)

module _ (py : Python) (c : Config) (d : Disk) (i : Input) where
  reads :
      (j : Input) (t : Dict Json) (id m : String)
      → queued m ≡ queued id
      → is_task_id id ≡ true
      → has id d.status ≡ false
      → let e = record d { queue = set m t d.queue } in
        dispatch py c e j ("status" ∷ id ∷ []) ≡ (e, task (queued_state id))
  unfolding dispatch status task_reply present
  reads j t id m a v n =
      subst
        (λ k.
          let e = record d { queue = set k t d.queue } in
          dispatch py c e j ("status" ∷ id ∷ []) ≡ (e, task (queued_state id)))
        (queued_inj (sym a)) (rw (v, load_status-set d id t n) refl)

  of_Effect :
      (j : Input) (id : String) (p : Disk × Reply)
      → Effect py c d i p
      → p.1 ≡ queued id
      → is_task_id id ≡ true
      → has id d.status ≡ false
      → dispatch py c p.0 j ("status" ∷ id ∷ []) ≡ (p.0, task (queued_state id))
  unfolding is_queued
  of_Effect j id p (inl (e, q)) a v n = absurd_queued (sym q ∙ ap is_queued a)
  of_Effect j id p (inr (t, adm, e)) a v n =
      rw e (reads j t id (new_id i) (sym (ap (λ (p : Disk × Reply). p.1) e) ∙ a) v n)

  -- When a command is answered with the id of a task it has queued, the id is well formed and no
  -- status is there under it, `status` with this id says right away that the task is queued.
  pub status_after_start :
      (j : Input) (words : List String) (id : String)
      → (dispatch py c d i words).1 ≡ queued id
      → is_task_id id ≡ true
      → has id d.status ≡ false
      → dispatch py c (dispatch py c d i words).0 j ("status" ∷ id ∷ [])
        ≡ ((dispatch py c d i words).0, task (queued_state id))
  status_after_start j words id =
      of_Effect j id (dispatch py c d i words) (dispatch-Effect py c d i words)
