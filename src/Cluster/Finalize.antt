-- ===== src/Cluster/Finalize.antt =====
-- Finalize of pkg/controllers/mocluster/controller.go.
use matrixone_operator.Base.{◌=s◌, if◌then◌else◌, Bool, true, false, not, ◌||◌, List, [], ◌∷◌}
use matrixone_operator.Base.Run.{ignore_missing, M, ◌>>=◌, ◌>>◌, pure}
use matrixone_operator.Base.Map.{get}
use matrixone_operator.Cluster.{
  Owned, log_set_of, dn_set_of, web_ui_of, web_ui_named_proxy, delete_all_cn_sets, exists_owned,
  delete_owned, MoServer, MoState, tell, call,
}
use matrixone_operator.Cluster.Up.{ann_skip_sync}

abbrev pub owned_objects : List Owned
owned_objects = log_set_of ∷ dn_set_of ∷ web_ui_of ∷ web_ui_named_proxy ∷ []

module _ (k : MoServer) where
  abbrev pub delete_if : Owned → Bool → M MoState (Unit {0})
  delete_if o false = pure tt
  delete_if o true = λ s. ignore_missing (k.owned_deleted s.calls o) (tell (delete_owned o) s)

  -- Whether one of them was there; each that was is deleted.
  unfoldable pub delete_owned_objects : List Owned → Bool → M MoState Bool
  delete_owned_objects [] any = pure any
  delete_owned_objects (o ∷ os) any = call (exists_owned o) (λ cs. k.owned_exists cs o) >>= λ there.
      delete_if o there >> delete_owned_objects os (any || there)

  unfoldable pub finalize : M MoState Bool
  finalize s =
      (if get ann_skip_sync s.annotations =s ""
          then (λ t. ignore_missing (k.all_cn_sets_deleted t.calls) (tell delete_all_cn_sets t))
            >> (delete_owned_objects owned_objects false >>= λ any. pure (not any))
          else pure true)
        s
