-- ===== src/Lib.antt =====
-- Remote Labs: the web frontend, web-server/frontend/src. It is the page on which students and
-- professors of a university keep virtual machines for their subjects.
--
-- The program. The frontend is a React application. Its hooks (hooks/) hold the state of a page and
-- the handlers that change it; a handler calls the REST API of web-server/backend by `fetch`, writes
-- its state with the setters of `useState`, and tells the user by a toast, an alert or a change of
-- page. AuthContext.tsx keeps the session, from a cookie to the routes that want a user. The buttons
-- and the table of machines (components/vm) call the hooks and update their rows from the results. The
-- panels of a subject and of the control plane do so for users, templates and machines.
--
-- How the code is modelled. A handler is an `Action L`, a function of a state `St L` that holds the
-- state `L` of its hook and the world: the contexts, the cookie and a log of all that was done
-- outside, the newest first (Runtime/Setting). It ends with a value or an exception, and what was
-- written before an exception stays; `try_catch`, `finally` and `do` blocks follow the code line by
-- line (Runtime/Flow, Runtime/Effects). A value that was captured at a render, such as the user of
-- the context, is an argument. A handler runs without another handler of the same hook between its
-- awaits, but for the answers of one `Promise.all`, which arrive in any order.
--
-- The markup of a page is a value of `Markup E`, where `E` is the type of the page's events: elements
-- with their attributes, texts, and what follows on a condition or for each row. `Offers` says which
-- events a user can set off on it, and a `Visit` is a sequence of events that are offered. Class
-- names, icons and elements that only arrange others are left out.
--
-- Parameters, for what is not in the repository. `net` answers a request from all that went before
-- it. `JSON.parse`, `parseInt` with a factor, the messages of a `TypeError`, the translations, what
-- js-cookie makes of a cookie text, `VITE_API_URL`, the case mappings of text and the arithmetic of
-- floating-point numbers, the choice of the router among its patterns, the browser's storage and the
-- test of an e-mail address in a schema are fields of the world or arguments. JSON numbers are
-- natural numbers, what is spread into an object is an object, and console output is left out. The
-- decoding of the cookie text, and the exception of a text that cannot be decoded, is another field of
-- the world.
--
-- The files, with the sources under web-server/frontend/src:
--   Prelude   shared names, Boolean tests and list functions
--   Js        JSON values, `replace`, `split`, `trim`, template literals and code units of the
--             language; Js/Text/Replace has the laws of `replace`
--   Env       utils/Env.ts: `getEnv` is `get_env`, by a key of `Endpoint`
--   Chrome    hooks/useScrollToTop.ts and useUserRole.ts, context/AlertDialogContext.tsx and
--             LoadingContext.tsx
--   Markup    what a component returns, the events that it offers, and a visit of it
--   Cookies   utils/cookies.ts: `getUserIdFromCookie` is `stored_user_id`, with
--             `get_user_id_from_cookie` for what it does with the decoded text
--   Runtime   the setting above; `Keeps` and `keeps_rules` are for invariants of a hook's state
--   Auth      context/AuthContext.tsx, one function per operation, and components/ProtectedRoute.tsx
--   Toast     hooks/use-toast.ts: `reducer` is `reduce` with `start_timers`; Toast/Laws has the steps
--   Template  hooks/useDefineTemplate.ts and useTemplates.ts; Template/Manager has the panels
--             components/subject/SubjectTemplatesManager.tsx, drawn in View, and
--             components/vm/DefineTemplateButton.tsx, drawn in Define
--   CreateSubject  hooks/useCreateSubject.ts: the parts of the handler, and the whole in
--             CreateSubject/Handler; CreateSubject/Sheet has components/CreateSubjectSheet.tsx, with
--             its markup and that of VirtualMachineConfig.tsx in Sheet/View
--   Subject   hooks/useDeleteSubject.ts; Subject/Listing has hooks/useSubjects.ts
--             (Listing/Answer and Rows what it makes of the answers), Subject/Reads
--             hooks/useAllSubjects.ts and useSubject.ts, Subject/Removal
--             components/subject/DeleteSubjectButton.tsx, Subject/Page pages/SubjectDetail.tsx, and
--             Subject/View the markup of pages/Subjects.tsx, components/SubjectCard.tsx,
--             components/subject/SubjectInfo.tsx and components/controlplane/SubjectsList.tsx
--   Instance  hooks/useCreateInstance.ts, useRequestLab.ts, useVMs.ts and useSubjectVMs.ts
--   Status    hooks/useServerStatus.ts, where an array in the body is one of `ServerStatus`; Status/Panel has components/controlplane/ServerStatus.tsx
--   Password  components/forms/PasswordRequirements.tsx
--   Register  hooks/forms/useRegisterForm.ts, useLoginForm.ts and pages/ResetPassword.tsx;
--             Register/View has what they draw, in components/LoginButton.tsx and RegisterForm.tsx,
--             LoginForm.tsx and ForgotPasswordForm.tsx of components/forms
--   Vm        hooks/useVMActions.ts; Vm/Buttons has the buttons of components/vm and Vm/Table the
--             table components/vm/VMsTable.tsx, Vm/Request components/vm/RequestLabButton.tsx,
--             Vm/Details components/vm/VMDetails.tsx, and Vm/Instances
--             components/subject/SubjectInstancesManager.tsx; the markup of these is in Table/View,
--             Request/View and Vm/View; Vm/Selector has components/vm/TemplateSelector.tsx
--   Wireguard hooks/useWireguardConfig.ts; Wireguard/Button has components/vm/WireguardConfigButton.tsx
--   Settings  hooks/useUserSettings.ts; Settings/Page has pages/UserSettings.tsx
--   Roster    hooks/useSubjectUsers.ts, useUsers.ts and useUserInstances.ts; Roster/Members has
--             components/subject/SubjectUsersManager.tsx and Roster/Accounts
--             components/controlplane/UserManager.tsx, each with its markup in Panel
--   Pages     pages/VerifyEmail.tsx and RenewSession.tsx, components/forms/ForgotPasswordForm.tsx
--   Routes    App.tsx, enums/AppRoutes.ts and hooks/useIsAdmin.ts; Routes/Frame has pages/Layout.tsx
--             with components/sidebar/app-sidebar.tsx and nav-user.tsx and the controls beside it
--   Theme     components/theme-provider.tsx
--   Trial     the eleven other hooks of hooks/forms, one schema and one handler each
--   Tests     runs on small inputs
--
-- Bounds and fuel. `TOAST_LIMIT` is 1 and `HISTORY_SIZE` is 10, as in the code. The only recursion on
-- fuel is the decimal notation of a number n, with the fuel n + 1: each digit divides by ten, so fewer
-- steps than that are taken. Loops are structural recursion on the list or text that is read.
--
-- Not modelled: the markup of the other components, the browser's own checks of an input, the widget
-- library (components/ui, copies of shadcn/ui), the matching of paths, the effects that only call a
-- handler on a change of its arguments, waits of a fixed time, and the Go programs
-- web-server/backend, vms-manager and server-agent behind the API.
pub mod Prelude
pub mod Js
pub mod Env
pub mod Runtime
pub mod Chrome
pub mod Cookies
pub mod Markup
pub mod Auth
pub mod Theme
pub mod Toast
pub mod Trial
pub mod Template
pub mod CreateSubject
pub mod Instance
pub mod Status
pub mod Pages
pub mod Password
pub mod Register
pub mod Vm
pub mod Wireguard
pub mod Settings
pub mod Roster
pub mod Routes
pub mod Subject
pub mod Tests
