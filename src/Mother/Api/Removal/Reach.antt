-- ===== src/Mother/Api/Removal/Reach.antt =====
-- mother/api/ingest.go and agent/loop.go: the way of a removal from the row to the host.
use feast_watch.Prelude.{
  ◌≡◌, ◌≢◌, refl, sym, ap, ◌∙◌, String, Bool, true, false, Option, some, [], ◌∷◌, ◌==◌, not, arith,
}
use feast_watch.Protocol.{IngestRequest, IngestResponse}
use feast_watch.Agent.Loop.{
  Loop, Round, answered, uninstalled, uninstall_retry_gap, is_within, push_once, act, try_uninstall,
  accept, run_once,
}
use feast_watch.Mother.Store.Tables.{Server, Arithmetic}
use feast_watch.Mother.Api.State.{Api}
use feast_watch.Mother.Api.Ingest.{Request, Answer, rejected, accepted, handle_ingest}
use feast_watch.Mother.Api.Ingest.Folding.{IsGoodPush, good_push-answer}

told_to_leave : Answer → Bool
told_to_leave (rejected code) = false
told_to_leave (accepted resp) = resp.uninstall

module _ {V : Type 0} (f : Arithmetic V) where
  leave-answer :
      (r : Request V) (req : IngestRequest V) (srv : Server) (a b : Api V) (resp : IngestResponse)
      → IsGoodPush r req srv a b
      → srv.uninstall_requested_at ≢ 0
      → (handle_ingest f r a).0 ≡ accepted resp
      → resp.uninstall ≡ true
  unfolding told_to_leave
  leave-answer r req srv a b resp g asked answer =
      let test : not (srv.uninstall_requested_at == 0) ≡ true = ground arith in
      sym (ap told_to_leave answer) ∙ ap told_to_leave (good_push-answer f r req srv a b g) ∙ test

  -- Once a removal was asked for, an agent that reads the answer to a good push and has an
  -- uninstaller starts it in that round, unless it tried within the retry gap.
  pub removal_reaches_the_agent :
      (r : Request V) (req : IngestRequest V) (srv : Server) (a b : Api V) (resp : IngestResponse)
      (version : String) (l : Loop) (round : Round) (result : Option String)
      → IsGoodPush r req srv a b
      → srv.uninstall_requested_at ≢ 0
      → (handle_ingest f r a).0 ≡ accepted resp
      → round.reply ≡ answered 200 (some resp)
      → round.uninstall ≡ some result
      → is_within round.now l.last_uninstall_at uninstall_retry_gap ≡ false
      → (run_once version l round).1 ≡ uninstalled ∷ []
  unfolding run_once push_once act try_uninstall accept
  removal_reaches_the_agent r req srv a b resp version l round result g asked answer read able
        late =
      rw (read, leave-answer r req srv a b resp g asked answer, able, late) refl
