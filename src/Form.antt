-- ===== src/Form.antt =====
-- The forms of react-app/src/components/forms: what each field must pass before a form is submitted.
pub mod ParseFloat
pub mod Validators
pub mod Models
pub mod Amounts
pub mod Spending
