-- ===== src/Lib.antt =====
-- FreeSMS, the shop system for workshops, car dealers and rental desks: its core logic.
--
-- A request is handled for a person with roles, in a shop that runs some modules
-- (internal/access). What the person types is read into amounts of minor units (internal/server),
-- the amounts are computed and rounded in one place (internal/money), a job goes through its states
-- under gates (internal/workshop), and its invoice is paid with a reference that a bank sends back
-- (internal/payref). PostgreSQL holds the state; a request is one transaction.
--
--   Common    integers with Go's wrap-around at 64 bits, texts as lists of code points with the
--             functions of strings and strconv that the code calls, lists.
--   Money     internal/money/money.go. Rounding is divRound and the amounts made with it, Totals is
--             Compute, Format is Format and Display. Rental is internal/money/rental.go: the search over
--             units, the seasons and extensions.
--   Dealer    internal/workshop/dealer_purchases.go (EligibleFor) and dealer_calculations.go: the check
--             of a calculation, its Result and marginSchemeBid.
--   Live      internal/live/hub.go: Channels is one subscription, Books the map of them, Loops the
--             loops of Publish and stop, Sound the invariant, Delivery what a screen is told.
--   Sie       internal/sie: the writer of the file that a bookkeeping program reads. Field is what a
--             reader of a field finds, FileLines what a reader of lines finds.
--   Voucher   internal/workshop/accounting.go: the vouchers of an export.
--   Invoice   internal/workshop/surcharges.go (surchargeLines, PreviewSurcharges, TotalsWith) and the
--             lines of internal/workshop/invoice.go (chargeableLines, toMoneyLines, bandsFrom): Ceiling
--             and Consumables are what the surcharges come to, Issued the page against the invoice.
--   Schedule  internal/workshop/schedule.go: RestWarnings, and in Build BuildSchedule. Stretch is the
--             loop over the shifts of a week, Warnings what the law asks for, Order how the two fit.
--   Barcode   internal/barcode/code128.go: Modules, with a reader of what it prints; Svg is SVG. Qr is
--             internal/barcode/qr.go: the field, the error correction and the order of the codewords;
--             Stream is qrStream and EncodeQR, and StreamReader, Reader and Blocks read them.
--   Server    internal/server/handlers_state.go (parseScaled, parseMinorUnits) and
--             internal/server/handlers_day.go (parseMinorSigned).
--   PayRef    internal/payref/payref.go: CheckDigit, OCR, OCRFor and CheckOCR; Payment is Swish
--             and GiroOf, Amount and Fields the parts of a Swish code as they are read.
--   Access    internal/access/access.go: Role is Role, Roles and Module, Scope is Scope.
--   WorkOrder internal/workshop/state.go. State is the machine and who may move it, Job is SetState
--             down to the rows it writes, with the gates it calls in internal/workshop/quotes.go,
--             tasks.go, outsourced.go and finalcheck.go and inWorkshop of modules.go. Below Job, Tests
--             and People give each test its meaning, Changes takes a move apart, Allowed is what a
--             move needs, and Releases what is still held.
--
-- Functions keep the names of the code in snake case: LineNet is `line_net`. A Go map is an
-- association list with one entry for each key, a loop is a recursion over the list it runs
-- through. An int64 is an integer whose operations are `add64`, `mul64` and the like, which wrap
-- round; int is taken to be as wide. The loop that writes a number has a buffer of 20 digits, which
-- is its fuel: ten to the twentieth is above every int64. A function that returns an error returns a
-- data type with a constructor for each error; the texts of the errors are left out.
--
-- A job is the rows that the statements of a transaction read and write, as one record. A
-- transaction that is refused is rolled back, so a refusal carries no job. Times are whole seconds,
-- quantities of stock are integers of the smallest unit there is. Whether the shop requires a final
-- check, and whether it is done, is read off the job. Errors of the database itself, its constraints
-- and the order in which transactions commit are not modelled: a row that is read is locked.
--
-- A moment is a number of nanoseconds since the year 1, an instant or what a wall clock shows, and a
-- time zone is a function from the one to the other: the time zone database is not part of the
-- repository. The Gregorian calendar of the standard library is written out in Common. The loop that
-- counts months has as fuel the number of times that 28 days fit into the rental, and one: a month is
-- no shorter. The two loops that make a bid exact have the code's own limit of four rounds. A hub is
-- its fields and the channels it made, in the order they were made; a call holds its lock, so what
-- happens to it is a sequence of calls. A date
-- of a schedule is the number of its day, and time.Date in the zone is a parameter. The order that the sort package gives the rates of a voucher is
-- a parameter.
--
-- Not modelled, since it is input and output or calls of libraries: the handlers' pages, the
-- statements of the other operations of internal/workshop, sign-in, mail, photos, configuration, the
-- catalogues of texts and the migrations. The drawing of a QR code (qrBuild, SVG) and
-- UsingQR of internal/payref are not modelled either.
pub mod Common
pub mod Dealer
pub mod Live
pub mod Money
pub mod Server
pub mod PayRef
pub mod Access
pub mod Sie
pub mod Voucher
pub mod Barcode
pub mod WorkOrder
pub mod Invoice
pub mod Schedule
