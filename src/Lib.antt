-- ===== src/Lib.antt =====
-- ah-there-it-is keeps the inventory of a home: items with states, quantities and places, in trees
-- of locations and categories, changed through a language-model agent, a web page and a Telegram bot.
-- This library models the core of it that decides what is stored.
--
-- domain/ (src/ah_there_it_is/domain/quantity.py, states.py, exceptions.py)
--   Domain.States, Domain.Quantity: the enumerations, the exceptions as values of Error, quantities and
--   portions with their validation, and _split_quantities of services/inventory.py. Numbers are integers
--   before validation and naturals, at most 2^63 - 1, after it.
-- db/ (src/ah_there_it_is/db/models.py)
--   Db: one record per table, a table is the list of its rows. Time stamps are left out, and the events
--   of an item are kept newest first. Text is a list of code points; JSON columns are their canonical
--   text. Session is a SQLAlchemy session: what it shows and what is committed. The database may refuse
--   any flush or commit (the test `accepts`); a refused one rolls the session back, as the services'
--   handlers do. New keys come from `fresh`, which returns an unused key (IsFresh).
-- services/inventory.py
--   Inventory.Checks, Nodes, Paths, Items, Updates, Moves, Photos: every operation of InventoryService, written
--   in the monad M of Session, with the source's order of reads, checks, writes, flushes and commits.
--   Inventory.Requests runs any sequence of operations. domain/names.py and russian_semantics.py, which
--   rest on pymorphy3, are the operations of the record Names.
--   The tree loops run on fuel, one round more than the table has rows: Inventory.Forest shows that this
--   is enough on any table, since each round visits a new row. Inventory.Valid is the invariant,
--   Inventory.Atomic holds one rule per operation, and Inventory.Requests.Runs combines them.
--   Inventory.Progress has the runs that succeed, with all that they write.
-- services/chat_requests.py, agent/receipts.py, AgentRunResult of agent/runner.py
--   Chat: the idempotency gate. One call's database is an Engine: how the commit of the reservation, the
--   final commit and the commit of a failure end (stored, lost, or stored with an error; a reservation may
--   also be refused because another process took the key), and whether the flush of the completed record is
--   accepted. The agent is a callback with the contract
--   IsAgent. The diagnostic texts of failures are fixed texts. Chat.Pages
--   has the pages of the request list.
-- agent/runner.py, agent/protocol.py, services/conversations.py, services/chat_application.py (all under
-- src/ah_there_it_is/)
--   Runner: Conversations has the messages and their windows; Turn and Rounds are AgentRunner.run: the state
--   of a turn is a record, each step returns or raises and leaves that state, and the loop runs on the
--   number of rounds that are left, max_rounds at the start. A RunEngine says whether each flush is accepted and how
--   each commit ends. The model is any function of the messages so far and the tool names. The tool
--   dispatcher is an interface (Turn.Dispatcher) with the laws of Dispatchers.IsDispatcher, which Tools.Lawful
--   proves of ToolDispatcher. Contract fills the contract IsAgent of the gate, Application is the composition of
--   the gate and the runner, and Agent puts the tools of the inventory in.
-- agent/tools.py, agent/write_resolution.py (under src/ah_there_it_is/)
--   Tools: Resolution is WriteResolver, its path loop on one round more than the table has rows.
--   Capabilities is ToolRunState with the copies of begin_round, and the search tools. Operations has the
--   tools that write, over the requests of Inventory.Requests, and NewPaths the one over
--   create_location_path; Writes is _validated_write in front of them. SearchKeys and Containment have normalize_search_text and assess_location_relation of domain/.
--   Receipts is _mutation_receipt, and Dispatcher is ToolDispatcher.execute on all its tools, as the runner
--   makes it, without commits. An event's key is its place from the end of the events. The reading tools, the checks of
--   arguments by pydantic and the JSON of results are any functions.
--   Guarded, Visible and Support tell what a write needs and where it comes from, by the lemmas of
--   Authority, Earned and Sources; Quiet and Lawful show that nothing is committed before the turn ends.
--   parse_location_phrase, the characters of words, and the ranking of a search are parameters.
-- services/undo.py
--   Undo: snapshots, the compensation of each kind of receipt, and undo itself, over the inventory without
--   commits. The JSON dictionaries of receipts are typed rows under their keys, so a malformed dictionary
--   is a missing row.
-- telegram/polling.py, next_offset and acknowledge_update of telegram/adapter.py
--   Telegram: one poll and the loop over polls, on what each fetch returns, with the durable offset. What
--   the adapter does with an update is a parameter and may raise. An acknowledgement is a step of its own,
--   which may raise before or after the offset is stored.
-- portable_stream.py (under src/ah_there_it_is/)
--   Portable: Programs has JSON values, the workspace, and programs that peek at, take and append; Parser is
--   _PortableJsonParser as such programs, on fuel; Bytes is _ChunkedText over the bytes of a file, with the
--   strict decoder of UTF-8. A program runs on any Source, so that the chunked file can be compared with the
--   decoded text. Fuel for each character and two more is enough. json.loads is a parameter.
--
-- Not modelled: the clients of language models, the web pages, the bot's answers, storage archives,
-- migrations and the evaluation programs, which are input and output around this core; search
-- and catalogue pages.
-- Tests holds concrete services, runs by evaluation, and the witnesses of the results below.
pub mod Base
pub mod Text
pub mod Domain
pub mod Db
pub mod Session
pub mod Inventory
pub mod Receipts
pub mod Undo
pub mod Runner
pub mod Tools
pub mod Chat
pub mod Telegram
pub mod Portable
pub mod Tests
