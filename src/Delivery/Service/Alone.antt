-- ===== src/Delivery/Service/Alone.antt =====
-- The steps of one request that nothing comes between are the submission as it is written.
use line_message_playground.Prelude.{Option, Result}
use line_message_playground.Delivery.Types.{
  AcceptedDeliveryCommand, AttemptAcceptResult, LiveDeliveryTarget, ReceiptCapabilityCandidate,
  Raised, SubmitLinkedDelivery,
}
use line_message_playground.Delivery.Store.{AttemptDb}
use line_message_playground.Delivery.Repository.{Runtime}
use line_message_playground.Delivery.Service.{
  Outside, LinkedDeliveryAcceptResult, World, accepted_command, of_accept_result,
  continue_submission,
}
use line_message_playground.Delivery.Service.Requests.{Stage, stepwise, proceed}

module _ (rt : Runtime) (out : Outside) where
  abbrev then_on : Stage × World → Stage × World
  then_on (st, w) = proceed rt out st w

  -- The last three steps.
  abbrev ending : Stage × World → World
  ending x = (then_on (then_on (then_on x))).1

  module _ (command : SubmitLinkedDelivery) (w : World) where
    -- What `submit` makes of the outcome of its first part.
    abbrev continued : Result Raised LinkedDeliveryAcceptResult × AttemptDb → World
    continued (r, db) = (continue_submission rt (stepwise out) r (record w { db = db })).1

    module _ (target : LiveDeliveryTarget) (c : Option ReceiptCapabilityCandidate) where
      abbrev cmd : AcceptedDeliveryCommand
      cmd = accepted_command rt out command target c

      abbrev answered : Result Raised AttemptAcceptResult × AttemptDb → World
      answered (r, db) = continued (of_accept_result rt (stepwise out) command target c r, db)
