-- ===== src/Lib.antt =====
-- The messaging backend: owners send messages to linked LINE recipients, recipients confirm them, and
-- LINE's webhook reports events. This library models the parts of backend/ that decide what is sent,
-- stored and handled, and proves what makes them correct.
--
-- Parts and files (paths from the repository's root)
--   Delivery           backend/delivery
--     Types            types.py: the values, with the checks of their constructors
--     Formatter        formatters.py: format_message
--     Fingerprint      repositories.py: build_request_fingerprint
--     Store            models.py: the table of attempts, its constraints, create and update
--     Row              repositories.py: what its methods read and write in one row
--     Repository       repositories.py: accept, finalize, get_for_owner, confirm_receipt;
--                      Repository.Writes has each of their writes by itself
--     Receipt          receipt.py: ReceiptCapabilityFactory, ReceiptHandler
--     Service          services.py: accept_confirmed, push_accepted, finalize_linked_push; views.py:
--                      DeliveryAPIView.post from the construction of the command on, as `submit`;
--                      Service.Requests has the same as the steps of requests that run at once
--     Confirmation     confirmation.py: ConfirmationService
--     Gateway          gateway.py: LINEChannelPushGateway
--   Friendship         backend/linefriendships/services.py and types.py; the locked update of
--                      backend/lineaccounts/friendship_repositories.py
--   Webhook            backend/linewebhooks
--     Types            types.py, and the table of models.py
--     Json             the values of the JSON parser
--     Verification     verification.py: WebhookPayloadValidator
--     Receipts         repositories.py: accept_batch, mark_processed, mark_failed
--     Dispatch         services.py: WebhookIngressService.ingest and _dispatch
--   Interaction        backend/lineinteractions
--     Types            types.py, and the choices of models.py
--     Parsing          parsing.py: DefaultInteractionParser
--     Audit            types.py: _valid_audit_combination; models.py; repositories.py
--     Registry         registries.py: StaticPostbackActionRegistry
--     Service          services.py: DefaultInteractionService; registries.py:
--                      StaticCommandRegistry
--   Account            backend/lineaccounts
--     Targets          delivery_repositories.py: DeliveryTargetDirectory
--   Channel            backend/linechannels
--     Rotation         rotation.py, rotation_item.py, rotation_repository.py: credential rotation
--   TextLab            backend/textjudgmentlab
--     Limits           limits.py: LabLimits
--   RichMenu           backend/linerichmenus/state_machine.py, not the changes of state that the
--                      repository makes without it (`handoff_recovery`)
--   Prelude            lists, texts, rows of a table, Boolean tests
--
-- How the parts interact. A submission resolves its target, stores an attempt, asks for the target
-- again, calls LINE and stores the result; `Delivery.Service.World` is the table together with the
-- commands that LINE was called with. A webhook request stores one receipt for each event and hands
-- the new ones to handlers; `Webhook.Dispatch.Ingress` is the table of receipts, the audits and the
-- calls of handlers. The friendship projection is one of the handlers, the receipt of a message
-- reaches the attempt repository through another: the postback of the button that the gateway sent is
-- read by the interaction parser and handed to the receipt handler.
--
-- State and concurrency. A table is the list of its rows, and each operation returns it with its
-- result. What other transactions commit while an operation on the attempts runs, before its write and
-- before each reading after it, are functions `others` on the table, an argument of the operation;
-- where a theorem needs to know more of them they are sequences of the repository's own writes
-- (`Delivery.Repository.Writes`). Database constraints are what the code relies on there. Submissions at
-- the same time are a list of requests whose steps come in any order (`Delivery.Service.Requests`). The
-- webhook's receipts are accepted in one transaction. In `TextLab.Limits` a call reads the clock before
-- it enters the mutex, and a release is three steps of which the mutex covers one.
--
-- Parameters. SHA-256, the digest of a serialised message and Python's table of white space
-- (`Delivery.Repository.Runtime`); the target directory, the credential repository, the LINE gateway,
-- random bytes and clocks (`Delivery.Service.Outside`); Django's signer and the encoding of a token's payload (`Delivery.Confirmation.Signing`); LINE's client, an
-- argument of `Delivery.Gateway.push`; the services around an interaction
-- (`Interaction.Service.Services`); the cipher of credentials, the lock and what transactions raise
-- in a rotation (`Channel.Rotation.Cipher` and `Environment`); the parsed request, the credential, the
-- signature check, the JSON parser, the handlers, failures of storage and the clocks of a webhook
-- request (`Webhook.Dispatch.Request` and `Environment`).
--
-- Bounds. Times are whole microseconds, so the rounding of floating-point seconds is not modelled;
-- a UUID or a digest is a number. There is no fuel but in the decimal digits of a number, where the
-- number itself is enough, and in the chain of exceptions that the gateway reads, of which the code
-- itself reads at most four.
--
-- Not modelled: lengths of text columns, checks of the Python types of arguments, time zones,
-- serialisers, HTTP, the signature of a webhook request, the audit of a late response, the reply
-- gateway, and the other parts of backend/ (links and sessions of accounts, the lifecycle of channels,
-- the rich menu services, the text judgement lab but for its limits).
mod Prelude
pub mod RichMenu
pub mod Delivery
pub mod Friendship
pub mod Webhook
pub mod Interaction
pub mod Channel
pub mod TextLab
pub mod Account
