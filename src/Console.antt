-- ===== src/Console.antt =====
-- internal/admin/web/src: the admin console in the browser (React, TypeScript).
pub mod Json
pub mod Html
pub mod Script
pub mod Routes
pub mod Cookies
pub mod Utils
pub mod UtilsLaws
pub mod Components
pub mod ComponentsLaws
pub mod Pages
pub mod Api
pub mod Account
pub mod AppView
pub mod AppViewLaws
mod Runs
mod ViewRuns
