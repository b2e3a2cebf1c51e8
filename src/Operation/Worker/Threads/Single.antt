-- ===== src/Operation/Worker/Threads/Single.antt =====
-- operations/service.py: at most one operation of a server is active, whatever the threads do.
use craftcontrol.Base.{◌≡◌, refl, some, List, [], ◌∷◌, String}
use craftcontrol.Base.Dict.{lookup}
use craftcontrol.Operation.Lifecycle.{ServerOperation, create}
use craftcontrol.Operation.Service.{Table, apply_restart_required, create_or_reject}
use craftcontrol.Operation.Service.Single.{IsSingle}
use craftcontrol.Operation.Worker.Threads.{
  Process, Request, change, retry, act, finish, reclaim, reconcile, request, requests,
}
use craftcontrol.Operation.Worker.Threads.Copies.{finish-IsBacked}
use craftcontrol.Operation.Worker.Threads.Steps.{
  Holds, begin-Holds, retry-Holds, act-Holds, reclaim-IsBacked,
}
use craftcontrol.Operation.Worker.Threads.Reconciled.{reconcile-IsBacked}

request-Holds : (r : Request) (p : Process) → Holds p → Holds (request r p)
unfolding request apply_restart_required create_or_reject create
request-Holds (change uuid now changes correlation) p h = begin-Holds _ p refl h
request-Holds (retry uuid now id correlation) p h = retry-Holds uuid now id correlation p h
request-Holds (act id a how) p h = act-Holds id a how p h
request-Holds (finish id) p h = finish-IsBacked p.service.server_id p.service.table p.copies h id
request-Holds (reclaim id s reason x u v o d) p h =
    reclaim-IsBacked p.service.server_id p.service.table p.copies h id s reason x u v o d
request-Holds (reconcile env id observation w) p h =
    reconcile-IsBacked env p.service.server_id p.copies (record w { table = p.service.table }) h id
      observation

requests-Holds : (rs : List Request) (p : Process) → Holds p → Holds (requests rs p)
unfolding requests
requests-Holds [] p h = h
requests-Holds (r ∷ rs) p h = requests-Holds rs (request r p) (request-Holds r p h)

-- Every row of the table stands at the id of its operation.
abbrev pub IsKeyed : Table → Type 0
IsKeyed t = (k : String) (op : ServerOperation) → lookup k t ≡ some op → op.operation_id ≡ k

-- A process starts without threads on a table in which at most one operation of its server is active.
-- Whatever changes and retries are asked for, whatever the threads do to their copies of the
-- operations, whichever of their writes fail, and whatever is reclaimed and reconciled meanwhile, in
-- whatever order: at no time are two operations of the server active in the table, where no other
-- process writes it.
pub requests-IsSingle :
    (rs : List Request) (p : Process)
    → p.copies ≡ []
    → IsKeyed p.service.table
    → IsSingle p.service.server_id p.service.table
    → IsSingle (requests rs p).service.server_id (requests rs p).service.table
unfolding lookup
requests-IsSingle rs p e k h =
    (requests-Holds rs p (record {
      single = h;
      keyed = k;
      own = λ i op f. cc (rw e at f);
      served = λ i op f. cc (rw e at f);
      backed = λ i op f y. cc (rw e at f);
    })).single
