-- ===== src/Categorization/Tables/Names.antt =====
-- categorization/logic.py: the category names, in their order, and the aliases.
use Prim.Native.String.{String}
use mathlib.Core.List.{List, [], ◌∷◌}

unfoldable pub category_order : List String
category_order =
    "Child Support" ∷ "Autopac" ∷ "Car Payment" ∷ "Car Repair" ∷ "Car Replacement Fund"
    ∷ "Real Estate Tax" ∷ "Rental Expenses" ∷ "Cleaning" ∷ "Clothing" ∷ "Debt" ∷ "Dining"
    ∷ "Misc Household" ∷ "Medical ProfSvcs" ∷ "University / Books" ∷ "Emergency Fund" ∷ "Fuel"
    ∷ "Fun / Entertainment" ∷ "Furniture / Appliances" ∷ "Birthday / Celebrations" ∷ "Groceries"
    ∷ "IncomeTax Due" ∷ "Home Insurance" ∷ "Mortgage PrePayment" ∷ "Interest Expense"
    ∷ "Life Insurance" ∷ "Medical Products" ∷ "LTD Insurance" ∷ "Home Mortgage" ∷ "Lake"
    ∷ "Sinking Fund" ∷ "Donations" ∷ "Vacation" ∷ "Christmas" ∷ "Home Improvement" ∷ "RRSP GIC"
    ∷ "RRSP" ∷ "Health & Fitness" ∷ "Accounting" ∷ "Hydro" ∷ "Online Svcs" ∷ "Wireless" ∷ "TV"
    ∷ "Water" ∷ "Bank Fee" ∷ "MLCC" ∷ "Cash/Unknown" ∷ "Kids Clothing" ∷ "Kids Sports"
    ∷ "Emp Reimburse" ∷ "Principal Expense" ∷ "Student Expense" ∷ "Hair/Salon/Body Care"
    ∷ "Future Use1" ∷ "Indoor Supplies" ∷ "Outdoor Supplies" ∷ "Future Use2" ∷ "Parking"
    ∷ "Shareholder loan" ∷ "TFSA" ∷ "Asset Purchase" ∷ []

abbrev pub default_category : String
default_category = "Groceries"

unfoldable pub category_aliases : List (String × String)
category_aliases =
    ("online services", "Online Svcs")
    ∷ ("medical prof svcs", "Medical ProfSvcs")
    ∷ ("medical prof services", "Medical ProfSvcs")
    ∷ ("cash unknown", "Cash/Unknown")
    ∷ ("shareholder loan", "Shareholder loan")
    ∷ ("misc paul rox", "Misc Household")
    ∷ ("misc paul and rox", "Misc Household")
    ∷ []
