-- ===== src/Lib.antt =====
-- Verification of the core of WorkflowForge.
--
-- The program is a Python monorepo in layers: a pure domain (packages/domain), use cases over ports
-- (packages/application), adapters for the database, the key store and the object store
-- (packages/infrastructure), and applications on top (apps). This library models the part that
-- decides who may act and for how long (identities, memberships and roles, tenant contexts and
-- their permissions, the sessions with their rotating refresh tokens) and the tenant's data: document
-- batches and cases with their optimistic locks, documents, and the intake of files.
--
-- How the parts interact: the use cases of Sessions.Lifecycle run on a database session
-- (Transaction) whose tables are Sessions.Store; they read rows through Sessions.Repository, build
-- domain objects (Sessions.Session, Sessions.Token), and record events (Audit). Tenant resolution
-- reads organizations and memberships and makes the context that the policies of Authorization
-- judge; the administration policy calls the last-owner policy of Identity.Owners. The services of
-- Batches and Cases ask the authorization policy first, lock a row, apply a method of the domain
-- object, store it and record the event in one transaction. An upload is named and streamed by
-- Uploads, and its digest is what the storage key of a document version (Documents.Keys) is made of.
--
-- Files and the code that they are about:
--   Time, Text            the normalization of timestamps and of white space, as
--                         packages/domain/src/workflowforge_domain/identity/entities.py does it
--   Identity.Validation   the validators at the end of entities.py
--   Identity.User, Identity.Organization, Identity.Membership
--                         the entities of entities.py; the laws stand in their children
--   Identity.Roles        identity/enums.py and identity/permissions.py
--   Identity.Owners       identity/policies.py
--   Authorization.*       packages/application/src/workflowforge_application/authorization
--   Transaction           packages/infrastructure/src/workflowforge_infrastructure/database/session.py
--   Audit                 workflowforge_domain/audit.py and audit/repository.py
--   Sessions.Session, Sessions.Token
--                         identity/sessions.py of the domain
--   Sessions.Store, Sessions.Repository
--                         the tables and the session repository of identity/models.py and
--                         identity/repository.py of the infrastructure
--   Sessions.Claims, Sessions.Lifecycle
--                         identity/tokens.py and identity/session_lifecycle.py of the application
--   Batches.Batch         workflowforge_domain/batches.py
--   Batches.Store, Batches.Repository
--                         batches.py of the infrastructure
--   Batches.Service, Batches.Listing
--                         batches.py of the application, with the queries of the repository
--   Cases.Case, Cases.Task
--                         workflowforge_domain/cases.py
--   Cases.Store, Cases.Repository
--                         cases.py of the infrastructure
--   Cases.Service, Cases.Listing
--                         cases.py of the application, with the query of the repository
--   Documents.Naming, Documents.Keys, Documents.Version, Documents.Document
--                         workflowforge_domain/documents.py
--   Uploads.*             documents/upload_validation.py of the application
--   Rows                  tables as lists of rows, their order and pages
--   Examples.*            concrete inputs
--
-- Conventions. An exception is a value of `Error`, and a method returns `Result`. A method of a
-- frozen dataclass returns the new object that its constructor validates. A UUID and a digest are
-- numbers, a string is a list of code points, and a point in time is a number of microseconds with
-- a zone, or naive. A use case is an action on a committed and a working state: `commit` publishes
-- the working state, `rollback` and the end of a request drop it. What a call draws from the world
-- (clock, identifiers, fresh tokens, the outcome of the password check and of the token codec) is
-- its argument. Concurrent requests are sequences of calls; a race of two rotations is one of them
-- after the other, as row locks serialize them. The database raises a violated constraint at the
-- statement or flush that causes it; of several violated constraints the model names the first in a
-- fixed order. Loops are over lists, but for the reading of an upload: its fuel is one read for
-- each byte that the limit allows and one more, and the loop is shown to end within it for every
-- stream. The tables of the Unicode database, the hash function, the reader of ZIP directories and
-- the pattern test of the database are parameters.
--
-- Not modelled: the request context and metadata of audit events, password hashing, token
-- generation and signing (parameters), log messages and exception texts, the type tests on
-- arguments that the types of the model make true, deletion of users and organizations, the
-- document service and its repository, rate limits, settings, storage, the task queue and the HTTP
-- layer.
pub mod Audit
pub mod Authorization
pub mod Base
pub mod Batches
pub mod Cases
pub mod Documents
pub mod Examples
pub mod Identity
pub mod Rows
pub mod Sessions
pub mod Text
pub mod Time
pub mod Transaction
pub mod Uploads
