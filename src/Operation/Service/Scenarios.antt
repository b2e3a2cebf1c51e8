-- ===== src/Operation/Service/Scenarios.antt =====
-- Scenarios of the requests to the service, at concrete inputs.
use mathlib.Core.List.{Perm}
use craftcontrol.Base.{◌≡◌, refl, none, some, [], ◌∷◌, arith}
use craftcontrol.Base.Dict.{lookup}
use craftcontrol.Operation.Lifecycle.{
  ServerOperation, create, ok, prepare, begin_stage, start, modify_stage, fail_stage,
}
use craftcontrol.Operation.Lifecycle.Machine.{call, to_start, to_begin, to_fail, after}
use craftcontrol.Operation.Service.{
  Service, created, save_new, newest, get_active, retry_of, retry_operation, update_stage,
}
use craftcontrol.Operation.Service.Listing.{list_recent, recent_rows, rows_of}
use craftcontrol.Operation.Service.Listing.Pages.{first_pages, page_count, first_pages-Perm}
use craftcontrol.Operation.Service.Retry.{IsRetry, retry_operation-IsRetry}
use craftcontrol.Operation.Service.Stage.{update_stage-call}

abbrev idle : Service
idle = record { server_id = "default"; table = []; started = [] }

abbrev running_operation : ServerOperation
running_operation =
    after (create "a" 1 "default" [] none none)
      (call (to_start 3) (create "a" 1 "default" [] none none))

abbrev failed_operation : ServerOperation
failed_operation =
    after running_operation (call (to_fail prepare "disk full" none 4 5 6) running_operation)

abbrev failed_service : Service
failed_service = record idle { table = ("a", failed_operation) ∷ [] }

abbrev retried : ServerOperation
retried = retry_of "c" 7 "default" none failed_operation "a"

failed_stored : lookup "a" failed_service.table ≡ some failed_operation
unfolding lookup
failed_stored = refl

retried_created : (retry_operation "c" 7 "a" none failed_service).1 ≡ created retried
unfolding retry_operation save_new get_active newest lookup create call start fail_stage
    modify_stage
retried_created = refl

retry_operation-IsRetry_example :
    IsRetry "c" "a" failed_service
      (retry_operation "c" 7 "a" none failed_service).0
      failed_operation
      retried
retry_operation-IsRetry_example =
    retry_operation-IsRetry "c" 7 "a" none failed_service failed_operation retried failed_stored
      retried_created

abbrev prepared : ServerOperation
prepared = after running_operation (call (to_begin prepare none 8 9) running_operation)

prepared_ok : call (to_begin prepare none 8 9) running_operation ≡ ok prepared
unfolding call start begin_stage modify_stage create
prepared_ok = refl

running_stored :
    lookup running_operation.operation_id (("a", running_operation) ∷ []) ≡ some running_operation
unfolding lookup call start create
running_stored = refl

update_stage-call_example :
    lookup running_operation.operation_id
      (update_stage prepared prepare (("a", running_operation) ∷ []))
    ≡ some prepared
update_stage-call_example =
    update_stage-call (to_begin prepare none 8 9) prepare running_operation prepared
      (("a", running_operation) ∷ []) refl prepared_ok running_stored

-- Three operations, in pages of two.
abbrev listing : Service
listing = record idle {
  table =
      ("a", failed_operation)
      ∷ ("b", create "b" 9 "default" [] none none)
      ∷ ("c", create "c" 4 "default" [] none none)
      ∷ [];
}

first_pages-Perm_example :
    Perm
      (first_pages 2 (page_count (list_recent 2 1 listing)) listing)
      (rows_of listing.server_id listing.table)
first_pages-Perm_example = first_pages-Perm 2 listing (ground arith) (ground arith)

two_pages : page_count (list_recent 2 1 listing) ≡ 2
unfolding list_recent recent_rows rows_of create call start fail_stage modify_stage
two_pages = refl
