-- ===== src/Chat/Agents.antt =====
-- services/chat_requests.py: what is asked of the callback that runs the agent (agent/runner.py).
use ah_there_it_is.Base.{◌≡◌, refl, ◌⊎◌, inl, inr, true, false, some, find}
use ah_there_it_is.Receipts.{AgentRunLog, AgentRunResult}
use ah_there_it_is.Chat.Store.{ChatResult, ok, err, ChatError, Store, Agent, run_id}
use ah_there_it_is.Chat.Reserve.{both}
use ah_there_it_is.Chat.Execute.{result_of_run}

-- An agent that starts with no pending writes and was told not to commit may store a conversation
-- and the log of a failed run, but commits nothing else; when it returns a result, it has left the
-- requests alone, and the run of this result is pending as completed.
pub record IsAgent {W : Type 0} (agent : Agent W) : Type 0 where
  pub keeps_world : (d : Store W) → (agent false (both d)).1.committed.world ≡ d.world
  pub keeps_messages : (d : Store W) → (agent false (both d)).1.committed.messages ≡ d.messages
  pub keeps_requests : (d : Store W) → (agent false (both d)).1.committed.records ≡ d.records
  pub keeps_records :
      (d : Store W) (a : AgentRunResult)
      → (agent false (both d)).0 ≡ ok a
      → (agent false (both d)).1.working.records ≡ d.records
  pub stores_run :
      (d : Store W) (a : AgentRunResult)
      → (agent false (both d)).0 ≡ ok a
      → (run : AgentRunLog) × (find run_id a.run_id (agent false (both d)).1.working.runs
          ≡ some run)
        × (run.completed ≡ true)
        × (result_of_run (some run) ≡ ok a)

pub ChatResult-cases :
    {A : Type 0} (x : ChatResult A) → ((a : A) × (x ≡ ok a)) ⊎ ((e : ChatError) × (x ≡ err e))
ChatResult-cases (ok a) = inl (a, refl)
ChatResult-cases (err e) = inr (e, refl)
