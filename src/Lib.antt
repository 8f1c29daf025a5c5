-- ===== src/Lib.antt =====
-- MindEngage LMS: the exam engine of the repository, its automatic grading, its permissions, its test
-- formats and its LTI platform for tools, with the properties that make them correct.
--
-- The gateway serves exams over HTTP. Its handlers call the exam store (internal/exam/store_sql.go), a
-- set of methods on the SQL tables exams, attempts, attempt_items and event_log. Submit and
-- AdvanceModule call the grader of internal/grading; AdvanceModule calls the module router that is
-- registered for the exam's profile. internal/rbac guards the routes, and internal/formats checks the
-- policies of the test profiles and has the SAT router.
--
-- Exam/Models, Exam/Store: the structs of internal/exam/models.go and the rows of the four tables; a
--   database is the record Db of four lists of rows. Store/Rows has the laws of finding and updating.
-- Exam/Policy: extractModules, parseNavPolicy, moduleWindowFor, allowedQIDsForModuleID and the maps from
--   question ids to indices, of internal/exam/policy_extract.go and store_sql.go.
-- Exam/Routing: the registry of routers of internal/exam/routing.go.
-- Exam/Exams: PutExam, GetExamAdmin, GetExam. Exam/Attempts: NewAttempt, GetAttempt. Exam/Save:
--   SaveResponses. Exam/Navigate: Navigate. Exam/Submit: Submit. Exam/Advance: AdvanceModule.
--   Exam/ManualGrade: ApplyManualGrades. Each is a function of the current time, its arguments and the
--   database, and returns a result or the error together with the new database. A method that writes is
--   a plan, which reads and may fail, and a change, which the plan decides.
-- Exam/Machine: the store under any sequence of these methods.
-- Grading/TextMatch, Grading/Numeric, Grading/Rubric, Grading/Engine: internal/grading, a strategy for
--   each question type and the grader that chooses it. Grading/EditDistance: levenshtein against an
--   independent description.
-- Rbac/Checker, Rbac/Require: internal/rbac, the permission patterns and the guards of the routes.
--   Rbac/Patterns has the texts that a pattern accepts.
-- Formats/Policy, Formats/Adapters, Formats/Scale, Formats/SatRouter: internal/formats. Formats/WellFormed
--   and Formats/Listed have the theorems on ValidatePolicy and on the SAT router.
-- Api/Students: the handlers of attempts and manual grades of internal/api/http/student_handlers.go and
--   grading_handlers.go. The texts of the store's errors are a parameter.
-- Api/Catalog, Api/Courses, Api/Teachers: the tables of courses, offerings and owners (internal/db/connect.go), and
--   the handlers of internal/api/http/courses.go and teacher_handlers.go on them. A reference between tables is
--   enforced, as PostgreSQL does, and an error of a statement that the code ignores changes nothing.
-- Api/Normalize: normalizeForType and bucketKeys, Api/Ephemeral: bumpEphemeral and GradeEphemeralHandler of
--   internal/api/http/offerings_link.go. One time stands for the clock of a request, and the text of a number or of
--   another value is a parameter.
-- Platform/Http: requests and answers of the handlers of pkg/platform, and lti/helpers.go.
-- Platform/Tenants, Platform/Tenancy: the resolver of tenants (tenants/resolver.go) and the middleware that
--   puts the tenant into the context of a request (lti/middleware/tenancy.go).
-- Platform/Bearer, Platform/Scopes: bearer tokens, claims and scopes (lti/middleware/authn.go, scopes.go).
-- Platform/Replay: the cache of single-use values and the handlers it guards (lti/middleware/replay.go).
-- Platform/Assertion, Platform/Token: the token endpoint (lti/token.go): Assertion has the secrets and
--   assertions of clients, Token/Identify the request up to the client, Token/Endpoint the rest.
-- Platform/Authorize: the authorization endpoint of a launch (lti/authorize.go): Authorize/Handler the claims and
--   the handler, Authorize/Hints the message hint. Platform/Keys: the signing keys of the tenants and their
--   rotation (lti/keys.go). Platform/Jwks: public keys and their endpoint (lti/jwks.go).
-- Platform/DeepLinking: deep linking (lti/deeplinking): the content items, Response its handler (response.go), Start
--   the address at which a tool starts (request.go). Platform/Metadata: the discovery document (lti/metadata.go).
-- Platform/Ags: the grade services (lti/ags/server.go, models.go, routes.go): Items and Scores have the handlers,
--   Routes the scopes of the routes, over the interface of the storage as a record.
-- Platform/Nrps: the members of a context (lti/nrps/routes.go). Platform/Admin: the registry of tools and
--   deployments (admin/registry.go, models.go), Tools and Deployments its handlers.
-- Gradebook: the transfer of scores to the platform of a tool (pkg/lti-ags-gradebook): Gradebook/Rows the
--   queries of sqlstore/store.go on lists of rows, Gradebook/Sync gradebook/syncer.go; the client of the
--   platform is a parameter.
-- Prelude, Strings, Float: shared helpers, Go's strings and maps, and float64. Strings/Split has strings.Fields
--   and its like. Tests: concrete stores, requests and servers, and the theorems at concrete inputs.
--
-- Conventions. Go's int and int64 are ℤ; the sums and differences of times wrap around at 64 bits
-- (Prelude/Int). float64 is a type F with its operations as a record (Float); no law of it is assumed. A map
-- is an association list. JSON texts are what encoding/json reads from them. The tables of unicode (simple
-- lower case, punctuation), the grader, the router and OCR are parameters. The loops are recursions
-- on their lists, so no fuel is needed; the client of Ags/Paging, which follows the links between pages,
-- reads as many pages as it is told, and one more than there are elements is enough. A method runs as one step: a sequence of calls stands for
-- requests one after the other, and the interleaving of the statements of two requests is not modelled.
-- Nor are failures of the database itself. In Platform a handler is a function of a request and of the state
-- of the service; net/url, base64, encoding/json, bcrypt and RSA, the signer and the registry of clients are
-- parameters. Its texts are sequences of characters, where Go indexes bytes: the separators and prefixes are
-- ASCII. Times and durations of the token endpoint, of launches and of keys are
-- in whole seconds.
--
-- Not modelled: login (internal/auth), QTI import and export (internal/qti), the launch of the gateway
-- (internal/lti), the HTTP client
-- and the routes of pkg/lti-ags-gradebook, the other handlers of internal/api and their SQL, object storage,
-- the migration of schemas and the front ends; of the store its listings (ListExams, ListAttempts,
-- GetAttemptItems); of the grader the text of its notes, which are constructors.
pub mod Prelude
pub mod Strings
pub mod Float
pub mod Exam
pub mod Grading
pub mod Rbac
pub mod Formats
pub mod Platform
pub mod Api
pub mod Gradebook
pub mod Tests
