-- ===== src/Ui.antt =====
-- ui/app_state.rs: the state of the terminal interface.
pub mod UserTab
pub mod AdminTab
pub mod Tabs
pub mod Form
pub mod Mode
pub mod Sidebar
pub mod App
pub mod Selection
pub mod SettingsMenu
pub mod TabSwitch
pub mod Arrows
pub mod Esc
pub mod Host
pub mod Invoice
pub mod Placeholder
pub mod Validation
pub mod Task
pub mod Results
pub mod Enter
pub mod Key
pub mod TextInput
pub mod Currencies
pub mod FormInput
pub mod Keyboard
pub mod Paste
pub mod Take
pub mod TradeKeys
pub mod PopupKeys
pub mod Placed
pub mod Session
